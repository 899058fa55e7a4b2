-- ===== src/Openapi.antt =====
-- openapi/: the tools that agents see. The OpenAPI documents are not modelled.
pub mod Tools
