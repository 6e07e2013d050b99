-- ===== src/Data/Documents.antt =====
-- `DocumentsDb` of node/src/data/mod.rs: the database that gets the documents of finalized blocks.
-- serde_json's values are a parameter; an object is an association list of its members.
pub mod Mem
pub mod Arango
pub mod Reflect
mod Examples
use text.Mathlib.Text.{◌==◌ as str_eq}
use text.Mathlib.TextEquality.{eq_iff}
use evernode_se.Common.{String, Bool, Option, List, [], ◌∷◌}
use evernode_se.Common.Assoc.{Key, Assoc}
use evernode_se.Common.Exec.{Exec}

instance abbrev pub string_key : Key String
string_key = record { eqb = str_eq; eqb_iff = eq_iff }

-- `serde_json::Value`: its objects, its texts, and the print `{:#}`.
pub record JsonLib : Type 1 where
  pub Value : Type 0
  pub as_object : Value → Option (Assoc String Value)
  pub object : Assoc String Value → Value
  pub text : String → Value
  pub to_pretty : Value → String

pub record SerializedItem (V : Type 0) : Type 0 where
  pub id : String
  pub body : V

pub record DocumentsDb (V D : Type 0) : Type 0 where
  pub put_account : SerializedItem V → Exec D (Unit {0})
  pub put_block : SerializedItem V → Exec D (Unit {0})
  pub put_message : SerializedItem V → Exec D (Unit {0})
  pub put_transaction : SerializedItem V → Exec D (Unit {0})
  pub has_delivery_problems : D → Bool

-- The four kinds of documents, and a call of a put.
pub data Put (V : Type 0) : Type 0 where
  account : SerializedItem V → Put V
  block : SerializedItem V → Put V
  message : SerializedItem V → Put V
  transaction : SerializedItem V → Put V

module _ {V D : Type 0} (db : DocumentsDb V D) where
  abbrev pub put : Put V → Exec D (Unit {0})
  put (account item) = db.put_account item
  put (block item) = db.put_block item
  put (message item) = db.put_message item
  put (transaction item) = db.put_transaction item

  -- The database after some calls, whatever they return.
  abbrev pub put_all : List (Put V) → D → D
  put_all [] d = d
  put_all (p ∷ ps) d = put_all ps (put p d).1
