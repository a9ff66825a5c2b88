-- ===== src/Model.antt =====
-- Package model (model/): the wire types, the rules that decide a check's verdict, and the rule on
-- internal targets.
pub mod Check
pub mod Verdict
pub mod Addr
pub mod Restricted
pub mod Dial
pub mod Content
pub mod Display
pub mod Timestamp
