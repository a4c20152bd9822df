-- ===== src/Models.antt =====
-- python/synapse_client/models.py and _control_result_models.py: the SDK's result types. Each is a
-- record with the fields that the class declares, and a reader that asks pydantic for each field
-- by its type, name, alias and default. What `extra="allow"` keeps beside them is not modelled.
pub mod Readers
pub mod Invocation
pub mod Service
pub mod Owner
pub mod Credentials
pub mod Finance
pub mod Provider
pub mod Control
