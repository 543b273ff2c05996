-- ===== src/Client/Session/Reload.antt =====
-- What a restart finds of the session.
use nanit_onvif.Prelude.{
  Option-cases, Bool-cases, inl, inr, Option, some, String, ◌≡◌, ◌≢◌, String_eq, ◌==◌, eqb, eqb_iff,
  beq-eq-false, arith,
}
use nanit_onvif.Client.Session.{
  Session, Store, current_revision, save_locked, update, load, init_session_store,
  new_session_store,
}

module _ {B : Type 0} (encode : Session → Option B) (write_file : Option B → Option B → Option B)
    (decode : B → Option Session) (abs : String → String) where
  -- A session at the current revision that an update has made is the one that a restart from the
  -- same file loads, where the update's write of the file succeeds, decoding inverts encoding on
  -- that session, and the file has a name.
  pub init_session_store-update :
      (store : Store B) (f : Session → Session) (session_file : String) (contents : B)
      → store.filename ≢ ""
      → session_file ≢ ""
      → (f store.session).revision ≡ current_revision
      → encode (f store.session) ≡ some contents
      → write_file store.file (some contents) ≡ some contents
      → decode contents ≡ some (f store.session)
      → (init_session_store decode abs session_file (update encode write_file f store).file).session
        ≡ (update encode write_file f store).session
  unfolding init_session_store load update save_locked new_session_store
  init_session_store-update store f session_file contents named asked revision encoded written
        decoded =
      ground (
        arith,
        named,
        asked,
        beq-eq-false store.filename "" named,
        beq-eq-false session_file "" asked,
      )

module _ {B : Type 0} (decode : B → Option Session) (abs : String → String) where
  load-stale :
      (store : Store B)
      → ((contents : B) (s : Session)
          → store.file ≡ some contents
          → decode contents ≡ some s
          → s.revision ≢ current_revision)
      → (load decode store).session ≡ store.session
  unfolding load
  load-stale store stale = elim (Option-cases store.file) [
    | inl none_yet ↦ rw (none_yet, load)
    | inr (contents, found) ↦ elim (Option-cases (decode contents)) [
      | inl undecoded ↦ rw (found, load, undecoded)
      | inr (s, decoded) ↦
          let e = eqb_iff s.revision current_revision in
          let other = stale contents s found decoded in
          elim (Bool-cases (eqb s.revision current_revision)) [
            | inl same ↦ absurd (other (e.0 same))
            | inr differs ↦ rw (found, load, decoded, differs)
          ]
    ]
  ]

  -- A restart whose file is missing, does not decode, or is of another revision starts afresh.
  pub init_session_store-ignores :
      (session_file : String) (file : Option B)
      → ((contents : B) (s : Session)
          → file ≡ some contents
          → decode contents ≡ some s
          → s.revision ≢ current_revision)
      → (init_session_store decode abs session_file file).session ≡ (new_session_store file).session
  unfolding init_session_store load new_session_store
  init_session_store-ignores session_file file stale = elim (Bool-cases (session_file == "")) [
    | inl unnamed ↦ rw (unnamed)
    | inr named ↦ rw (init_session_store, named) (load-stale _ stale)
  ]
