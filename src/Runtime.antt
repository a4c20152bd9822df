-- ===== src/Runtime.antt =====
-- What a Python call does: it returns, it raises one of the exceptions of
-- python/synapse_client/exceptions.py or of the standard library, or it is still polling when the
-- rounds that the model follows are used up. State is passed on after a raise too.
pub mod Steps
use synapse_network_sdk.Base.{ℕ, String, Bool, true, false, ◌||◌, ◌==◌, Option, none, some}

-- A Python `float`, by the 64 bits that hold it. Its arithmetic is the platform's (Host.antt).
abbrev pub Float : Type 0
Float = ℕ

-- The exceptions, with their message. `transport` is any exception of the package requests,
-- `validation` the `ValidationError` of the package pydantic, `invalid_operation` one of `decimal`,
-- and `system_exit` the end of a script with a message.
pub data Error : Type 0 where
  client_error budget_exceeded discovery invoke insufficient_funds : String → Error
  authentication timeout quote : String → Error
  price_mismatch : String → Float → Float → Error
  value_error type_error import_error validation transport invalid_operation : String → Error
  system_exit : String → Error

-- The classes of python/synapse_client/exceptions.py, and the base class of each.
pub data ErrorClass : Type 0 where
  client_error budget_exceeded discovery invoke : ErrorClass
  insufficient_funds authentication timeout quote price_mismatch : ErrorClass

abbrev pub rank : ErrorClass → ℕ
rank ErrorClass.client_error = 0
rank ErrorClass.budget_exceeded = 1
rank ErrorClass.discovery = 2
rank ErrorClass.invoke = 3
rank ErrorClass.insufficient_funds = 4
rank ErrorClass.authentication = 5
rank ErrorClass.timeout = 6
rank ErrorClass.quote = 7
rank ErrorClass.price_mismatch = 8

unfoldable pub base_class : ErrorClass → Option ErrorClass
base_class ErrorClass.client_error = none
base_class ErrorClass.budget_exceeded = some ErrorClass.client_error
base_class ErrorClass.discovery = some ErrorClass.client_error
base_class ErrorClass.invoke = some ErrorClass.client_error
base_class ErrorClass.insufficient_funds = some ErrorClass.budget_exceeded
base_class ErrorClass.authentication = some ErrorClass.client_error
base_class ErrorClass.timeout = some ErrorClass.client_error
base_class ErrorClass.quote = some ErrorClass.client_error
base_class ErrorClass.price_mismatch = some ErrorClass.client_error

-- The SDK's class of an exception, if it is one of the SDK's.
unfoldable pub class_of : Error → Option ErrorClass
class_of (client_error _) = some ErrorClass.client_error
class_of (budget_exceeded _) = some ErrorClass.budget_exceeded
class_of (discovery _) = some ErrorClass.discovery
class_of (invoke _) = some ErrorClass.invoke
class_of (insufficient_funds _) = some ErrorClass.insufficient_funds
class_of (authentication _) = some ErrorClass.authentication
class_of (timeout _) = some ErrorClass.timeout
class_of (quote _) = some ErrorClass.quote
class_of (price_mismatch _ _ _) = some ErrorClass.price_mismatch
class_of (value_error _) = none
class_of (type_error _) = none
class_of (import_error _) = none
class_of (validation _) = none
class_of (transport _) = none
class_of (invalid_operation _) = none
class_of (system_exit _) = none

-- The class, its base class and the base class of that one: the hierarchy is no deeper.
abbrev pub class_eq : ErrorClass → ErrorClass → Bool
class_eq a b = rank a == rank b

unfoldable pub is_subclass : Option ErrorClass → ErrorClass → Bool
unfolding base_class
is_subclass none c = false
is_subclass (some a) c = class_eq a c || (elim (base_class a) [
  | none ↦ false
  | some b ↦ class_eq b c || (elim (base_class b) [ none ↦ false | some d ↦ class_eq d c ])
])

-- `isinstance(exc, cls)` for a class of the SDK.
unfoldable pub is_instance : Error → ErrorClass → Bool
unfolding class_of is_subclass
is_instance e c = is_subclass (class_of e) c

-- `str(exc)`
unfoldable pub message_of : Error → String
message_of (client_error m) = m
message_of (budget_exceeded m) = m
message_of (discovery m) = m
message_of (invoke m) = m
message_of (insufficient_funds m) = m
message_of (authentication m) = m
message_of (timeout m) = m
message_of (quote m) = m
message_of (price_mismatch m _ _) = m
message_of (value_error m) = m
message_of (type_error m) = m
message_of (import_error m) = m
message_of (validation m) = m
message_of (transport m) = m
message_of (invalid_operation m) = m
message_of (system_exit m) = m

pub data Result (A : Type 0) : Type 0 where
  ok : A → Result A
  err : Error → Result A
  stalled : Result A

-- A call on a state `S`.
abbrev pub Action : Type 0 → Type 0 → Type 0
Action S A = S → Result A × S

module _ {S : Type 0} where
  abbrev pub pure : {A : Type 0} → A → Action S A
  pure a s = (ok a, s)

  abbrev pub raise : {A : Type 0} → Error → Action S A
  raise e s = (err e, s)

  -- `if test: raise e`
  abbrev pub raise_if : Bool → Error → Action S (Unit {0})
  raise_if true e s = (err e, s)
  raise_if false e s = (ok tt, s)

  -- A step that needs no state.
  abbrev pub lift_result : {A : Type 0} → Result A → Action S A
  lift_result r s = (r, s)

  infixl 5 ◌>>=◌ ◌>>◌
  abbrev pub ◌>>=◌ : {A B : Type 0} → Action S A → (A → Action S B) → Action S B
  ◌>>=◌ m f s =
      let (r, s') = m s in elim r [ ok a ↦ f a s' | err e ↦ (err e, s') | stalled ↦ (stalled, s') ]

  abbrev pub ◌>>◌ : {B : Type 0} → Action S (Unit {0}) → Action S B → Action S B
  m >> k = m >>= λ _. k

-- A bind on results alone.
abbrev pub and_then : {A B : Type 0} → Result A → (A → Result B) → Result B
and_then (ok a) f = f a
and_then (err e) f = err e
and_then stalled f = stalled

-- `none` from a pydantic reader is a `ValidationError`.
abbrev pub or_invalid : {A : Type 0} → Option A → Result A
or_invalid none = err (validation "validation error")
or_invalid (some a) = ok a
