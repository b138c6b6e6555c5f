-- ===== src/Admission.antt =====
-- internal/admission: the tokens that let a visitor through to the origin.
pub mod Token
pub mod Dates
pub mod Binding
