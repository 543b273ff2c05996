-- ===== src/Client/Session.antt =====
-- pkg/session/session.go: the session store, with the file that it keeps. `B` is the contents of a
-- file, and `encode` and `decode` are encoding/json; a time is in nanoseconds from the zero time.
pub mod Reload
use nanit_onvif.Prelude.{
  ℕ, Bool, true, false, Option, none, some, String, List, [], if◌then◌else◌, eqb, String_eq, ◌==◌,
}

pub record Baby : Type 0 where
  pub uid : String
  pub name : String
  pub camera_uid : String

abbrev pub current_revision : ℕ
current_revision = 3

pub record Session : Type 0 where
  pub revision : ℕ
  pub auth_token : String
  pub auth_time : ℕ
  pub babies : List Baby
  pub refresh_token : String
  pub last_seen_message_time : ℕ

abbrev pub empty_session : Session
empty_session = record {
  revision = 0;
  auth_token = "";
  auth_time = 0;
  babies = [];
  refresh_token = "";
  last_seen_message_time = 0;
}

-- The store, and the contents of the file that it names.
pub record Store (B : Type 0) : Type 0 where
  pub filename : String
  pub session : Session
  pub file : Option B

unfoldable pub new_session_store : {B : Type 0} → Option B → Store B
new_session_store file = record {
  filename = "";
  session = record empty_session { revision = current_revision };
  file = file;
}

unfoldable pub snapshot : {B : Type 0} → Store B → Session
snapshot store = store.session

-- `encode` gives nothing where the session cannot be marshalled, and `write_file` is what opening,
-- truncating and writing leave of the file; its second argument is the data, if it got that far.
module _ {B : Type 0} (encode : Session → Option B)
    (write_file : Option B → Option B → Option B) where
  unfoldable pub save_locked : Store B → Store B
  save_locked store =
      if store.filename == ""
      then store
      else record store { file = write_file store.file (encode store.session) }

  unfoldable pub update : (Session → Session) → Store B → Store B
  unfolding save_locked
  update f store = save_locked (record store { session = f store.session })

module _ {B : Type 0} (decode : B → Option Session) where
  unfoldable pub load : Store B → Store B
  load store = elim store.file [
    | none ↦ store
    | some contents ↦ elim (decode contents) [
      | none ↦ store
      | some session ↦
          if eqb session.revision current_revision
          then record store { session = session }
          else store
    ]
  ]

  -- `abs` is `filepath.Abs`.
  unfoldable pub init_session_store : (String → String) → String → Option B → Store B
  unfolding load new_session_store
  init_session_store abs session_file file =
      let store = new_session_store file in
      if session_file == "" then store else load (record store { filename = abs session_file })
