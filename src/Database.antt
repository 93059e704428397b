-- ===== src/Database.antt =====
-- database.rs: the operations of a transaction, their log, and what they do to the staged state.
pub mod Operations
pub mod Catalog
pub mod Staging
pub mod Group
use eve_db.Base.{ℕ}
use eve_db.Model.{Table, Fields}

pub data Operation : Type 0 where
  table : Table → Operation
  create apply : ℕ → ℕ → Fields → Operation
  delete : ℕ → ℕ → Operation
  retain : ℕ → ℕ → ℕ → Operation
  snapshot : ℕ → ℕ → Operation
