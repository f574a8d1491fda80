-- ===== src/Server/Migrate/Live.antt =====
-- When `Migrate` succeeds (server/migrate.go).
use computeid_go.Common.{
  ℕ, ◌≡◌, refl, ◌⊎◌, inl, inr, String, true, false, Option, none, some, List, [], ◌∷◌, ◌++◌,
  Option-cases, ap,
}
use computeid_go.Server.Migrate.{
  Store, Link, Files, Entry, trim_suffix, up_names, sort_strings, recorded, send, create_table,
  is_applied, border, run_script, record_version, commit_version, insert_version, apply_script,
  apply_version, migrate_one, migrate_all, migrate, read_and_apply,
}
use computeid_go.Server.Migrate.Laws.{next}

-- The versions on record; before the table of versions is there, none is.
abbrev pub on_record : Option (List String) → List String
on_record none = []
on_record (some vs) = vs

module _ {S : Type 0} where
  -- No statement fails of itself.
  abbrev pub NoFault : Link S → Type 0
  NoFault l = (n : ℕ) → l.fault n ≡ none

  -- With these versions on record and these tables, each migration in the list either is on record,
  -- or its own file can be read and the script in it runs on the tables that those before it leave.
  unfoldable pub RunsFrom :
      (String → S → String ⊎ S) → Files → List String → List String → S → Type 0
  RunsFrom script files [] vs t = Unit
  RunsFrom script files (n ∷ ns) vs t =
      ((recorded (trim_suffix n ".up.sql") vs ≡ true) × RunsFrom script files ns vs t)
      ⊎ ((recorded (trim_suffix n ".up.sql") vs ≡ false)
          × ((body : String) × (t' : S) × (files.read_file n ≡ inr body)
              × (script body t ≡ inr t')
              × RunsFrom script files ns (vs ++ trim_suffix n ".up.sql" ∷ []) t'))

  -- It ended without an error, with these versions on record and these tables.
  abbrev pub Fine : List String → S → Option String × Link S → Type 0
  Fine vs t r = (r.0 ≡ none) × (r.1.store ≡ record { tables = t; versions = some vs }) × NoFault r.1

  send_up :
      {A : Type 0} (q : Store S → String ⊎ (A × Store S)) (l : Link S) (a : A) (s : Store S)
      → NoFault l
      → q l.store ≡ inr (a, s)
      → send q l ≡ (inr a, record (next l) { store = s })
  unfolding send
  send_up q l a s up h = rw (up l.statements, send, h) refl

  versions-of :
      (l : Link S) (vs : List String) (t : S)
      → l.store ≡ record { tables = t; versions = some vs }
      → l.store.versions ≡ some vs
  versions-of l vs t h = ap (λ (s : Store S). s.versions) h

  commit-Fine :
      (saved : Store S) (vs : List String) (t : S) (l : Link S)
      → NoFault l
      → l.store ≡ record { tables = t; versions = some vs }
      → Fine vs t (commit_version saved l)
  unfolding commit_version
  commit-Fine saved vs t l up h =
      let r = send_up border l tt l.store up refl in rw (r, commit_version, r) (refl, h, up)

  insert-Fine :
      (saved : Store S) (v : String) (vs : List String) (t : S) (l : Link S)
      → NoFault l
      → l.store ≡ record { tables = t; versions = some vs }
      → recorded v vs ≡ false
      → Fine (vs ++ v ∷ []) t (insert_version saved v l)
  unfolding insert_version
  insert-Fine saved v vs t l up h new =
      let s : Store S = record { tables = t; versions = some (vs ++ v ∷ []) } in
      let r =
        send_up (record_version v) l tt s up
          (simp (versions-of l vs t h, ap (λ (s : Store S). s.tables) h, record_version, new)) in
      rw (r, insert_version, r)
        (commit-Fine saved (vs ++ v ∷ []) t (record (next l) { store = s }) up refl)

  module _ (script : String → S → String ⊎ S) where
    apply_script-Fine :
        (saved : Store S) (v body : String) (vs : List String) (t t' : S) (l : Link S)
        → NoFault l
        → l.store ≡ record { tables = t; versions = some vs }
        → recorded v vs ≡ false
        → script body t ≡ inr t'
        → Fine (vs ++ v ∷ []) t' (apply_script script saved v body l)
    unfolding apply_script
    apply_script-Fine saved v body vs t t' l up h new runs =
        let s : Store S = record { tables = t'; versions = some vs } in
        let r =
          send_up (run_script script body) l tt s up
            (simp (versions-of l vs t h, ap (λ (s : Store S). s.tables) h, run_script, runs)) in
        rw (r, apply_script, r)
          (insert-Fine saved v vs t' (record (next l) { store = s }) up refl new)

    apply_version-Fine :
        (v body : String) (vs : List String) (t t' : S) (l : Link S)
        → NoFault l
        → l.store ≡ record { tables = t; versions = some vs }
        → recorded v vs ≡ false
        → script body t ≡ inr t'
        → Fine (vs ++ v ∷ []) t' (apply_version script v body l)
    unfolding apply_version
    apply_version-Fine v body vs t t' l up h new runs =
        let r = send_up border l tt l.store up refl in
        rw (r, apply_version, r) (apply_script-Fine l.store v body vs t t' (next l) up h new runs)

    module _ (files : Files) where
      read_step :
          (name v body : String) (l : Link S)
          → files.read_file name ≡ inr body
          → read_and_apply script files name v l ≡ apply_version script v body l
      read_step name v body l h = rw (h, read_and_apply) refl

      one-old :
          (name : String) (vs : List String) (t : S) (l : Link S)
          → NoFault l
          → l.store ≡ record { tables = t; versions = some vs }
          → recorded (trim_suffix name ".up.sql") vs ≡ true
          → Fine vs t (migrate_one script files name l)
      unfolding migrate_one
      one-old name vs t l up h old =
          let v = trim_suffix name ".up.sql" in
          let there = versions-of l vs t h in
          let r = send_up (is_applied v) l true l.store up (simp (there, is_applied, old)) in
          rw (r, migrate_one, r) (refl, h, up)

      one-new :
          (name body : String) (vs : List String) (t t' : S) (l : Link S)
          → NoFault l
          → l.store ≡ record { tables = t; versions = some vs }
          → recorded (trim_suffix name ".up.sql") vs ≡ false
          → files.read_file name ≡ inr body
          → script body t ≡ inr t'
          → Fine (vs ++ trim_suffix name ".up.sql" ∷ []) t' (migrate_one script files name l)
      unfolding migrate_one
      one-new name body vs t t' l up h new read runs =
          let v = trim_suffix name ".up.sql" in
          let there = versions-of l vs t h in
          let r = send_up (is_applied v) l false l.store up (simp (there, is_applied, new)) in
          rw (r, migrate_one, r, read_step name v body (next l) read)
            (apply_version-Fine v body vs t t' (next l) up h new runs)

      migrate_all-Fine :
          (names : List String) (vs : List String) (t : S) (l : Link S)
          → NoFault l
          → l.store ≡ record { tables = t; versions = some vs }
          → RunsFrom script files names vs t
          → (migrate_all script files names l).0 ≡ none
      unfolding migrate_all RunsFrom
      migrate_all-Fine [] vs t l up h runs = refl
      migrate_all-Fine (n ∷ ns) vs t l up h (inl (old, rest)) =
          let (on, there, up') = one-old n vs t l up h old in
          rw (on, migrate_all)
            (migrate_all-Fine ns vs t (migrate_one script files n l).1 up' there rest)
      migrate_all-Fine (n ∷ ns) vs t l up h (inr (new, (body, t', read, done, rest))) =
          let (on, there, up') = one-new n body vs t t' l up h new read done in
          rw (on, migrate_all)
            (migrate_all-Fine ns (vs ++ trim_suffix n ".up.sql" ∷ []) t'
              (migrate_one script files n l).1 up' there rest)

      -- If no statement fails, the directory can be read, and each up migration that is not on
      -- record can be read and runs in its turn, the migrations end without an error.
      pub migrate-Fine :
          (entries : List Entry)
          → files.read_dir ≡ inr entries
          → (l : Link S) → NoFault l
          → RunsFrom script files
              (sort_strings (up_names entries))
              (on_record l.store.versions)
              l.store.tables
          → (migrate script files l).0 ≡ none
      unfolding migrate
      migrate-Fine entries listed l up runs = elim (Option-cases l.store.versions) [
        | inr (vs, there) ↦
            let r = send_up create_table l tt l.store up (simp (there, create_table)) in
            rw (r, migrate, listed, r)
              (migrate_all-Fine (sort_strings (up_names entries)) vs l.store.tables (next l) up
                (ap (λ o. record { tables = l.store.tables; versions = o }) there)
                (rw there at runs))
        | inl absent ↦
            let s = record (l.store) { versions = some [] } in
            let r = send_up create_table l tt s up (simp (absent, create_table)) in
            rw (r, migrate, listed, r)
              (migrate_all-Fine (sort_strings (up_names entries)) [] l.store.tables
                (record (next l) { store = s }) up refl (rw absent at runs))
      ]
