-- ===== src/Server/Migrate/Again.antt =====
-- What `Migrate` promises, for a first run and for the next (server/migrate.go).
use computeid_go.Common.{
  ℕ, ◌+◌, ◌≡◌, refl, ◌⊎◌, inl, inr, String, true, none, some, List, [], ◌∷◌, ◌++◌, sym, ap, ◌∙◌,
  Option-cases, All, length, arith,
}
use computeid_go.Server.Db.{Sum-cases}
use computeid_go.Server.Migrate.{
  Store, Link, Files, Entry, trim_suffix, up_names, sort_strings, send, create_table, is_applied,
  migrate_one, migrate_all, migrate,
}
use computeid_go.Server.Migrate.Laws.{next, lost, taken, sent}
use computeid_go.Server.Migrate.Listing.{IsUp, sort_strings-All, up_names-All}
use computeid_go.Server.Migrate.Runs.{
  IsRecorded, created, ran, Changes, done, more, Changes-trans, migrate_all-Ran,
}

-- The table of versions is there, and has the version of every up migration of the directory.
abbrev pub AllRecorded : {S : Type 0} → Files → Store S → Type 0
AllRecorded files s =
    (vs : List String) × (entries : List Entry) × (s.versions ≡ some vs)
    × (files.read_dir ≡ inr entries)
    × All (λ n. IsRecorded s (trim_suffix n ".up.sql")) (up_names entries)

-- The link after so many more statements.
abbrev pub later : {S : Type 0} → Link S → ℕ → Link S
later l n = record l { statements = l.statements + n }

module _ {S : Type 0} (script : String → S → String ⊎ S) (files : Files) where
  Changes-versions :
      {s t : Store S} (vs : List String)
      → s.versions ≡ some vs
      → Changes script files s t
      → (ws : List String) × (t.versions ≡ some ws)
  Changes-versions vs h done = (vs, h)
  Changes-versions vs h (more c (created absent)) = ([], refl)
  Changes-versions vs h (more c (ran v name body t us up read there new success)) =
      (us ++ v ∷ [], refl)

  created-versions :
      (s s' : Store S)
      → create_table s ≡ inr (tt, s')
      → (vs : List String) × (s'.versions ≡ some vs)
  created-versions s s' q = elim (Option-cases s.versions) [
    | inr (vs, there) ↦
        let same : s ≡ s' = cc (rw (there, create_table) at q) in (vs, rw (← same) there)
    | inl absent ↦
        let same : record s { versions = some [] } ≡ s' = cc (rw (absent, create_table) at q) in
        ([], rw (← same) refl)
  ]

  created-Changes :
      (l : Link S) (s : Store S)
      → create_table l.store ≡ inr (tt, s)
      → Changes script files l.store s
  created-Changes l s q = elim (Option-cases l.store.versions) [
    | inr (vs, there) ↦
        let same : l.store ≡ s = cc (rw (there, create_table) at q) in rw (← same) done
    | inl absent ↦
        let same : record (l.store) { versions = some [] } ≡ s =
          cc (rw (absent, create_table) at q) in
        rw (← same) (more done (created absent))
  ]

  -- Whatever fails, a run of the migrations changes the store only by creating the table of versions
  -- and by running, together with the record of a version that had none, the script that is read from
  -- the file of the directory which is named after this version and ".up.sql"; and if it returns no
  -- error, the directory was read and every up migration in it has its record.
  pub migrate-Changes :
      (l : Link S)
      → Changes script files l.store (migrate script files l).1.store
        × ((migrate script files l).0 ≡ none → AllRecorded files (migrate script files l).1.store)
  unfolding migrate
  migrate-Changes l = elim (sent create_table l) [
    | lost e r ↦ rw (r, migrate, r) (done, λ h. cc h)
    | taken a s q r ↦ elim (Sum-cases files.read_dir) [
      | inl (e, bad) ↦
          let step : migrate script files l ≡ (some e, record (next l) { store = s }) =
            rw (r, migrate, bad, r) refl in
          rw step (created-Changes l s q, λ h. cc h)
      | inr (entries, listed) ↦
          let start : Link S = record (next l) { store = s } in
          let rest = migrate_all-Ran script files (sort_strings (up_names entries)) start (
            (sort_strings-All (λ n. IsUp files (trim_suffix n ".up.sql") n) (up_names entries)).1 (
              up_names-All (λ n. IsUp files (trim_suffix n ".up.sql") n) entries
                (λ n there stem. (entries, listed, there, stem)))) in
          let step : migrate script files l
              ≡ migrate_all script files (sort_strings (up_names entries)) start =
            simp (r, migrate, listed) in
          rw step (
            Changes-trans script files (created-Changes l s q) rest.changes,
            λ h. (
              (Changes-versions _ (created-versions l.store s q).1 rest.changes).0,
              entries,
              (Changes-versions _ (created-versions l.store s q).1 rest.changes).1,
              listed,
              (sort_strings-All _ (up_names entries)).0 (rest.complete h),
            ),
          )
    ]
  ]

  send-made :
      (l : Link S)
      → create_table l.store ≡ inr (tt, l.store)
      → l.fault l.statements ≡ none
      → send create_table l ≡ (inr tt, next l)
  unfolding send
  send-made l made up = rw (up, send, made)

  -- A migration that is recorded is passed over: one query, and nothing else.
  pub migrate_one-again :
      (name : String) (l : Link S)
      → IsRecorded l.store (trim_suffix name ".up.sql")
      → ((migrate_one script files name l).1 ≡ next l)
        × (l.fault l.statements ≡ none → (migrate_one script files name l).0 ≡ none)
  unfolding migrate_one send
  migrate_one-again name l (vs, there, old) = elim (Option-cases (l.fault l.statements)) [
    | inr (e, f) ↦
        let run : send (is_applied (trim_suffix name ".up.sql")) l ≡ (inl e, next l) =
          rw (f, send) in
        rw (run, migrate_one, run) (refl, λ h. cc (h, f))
    | inl up ↦
        let old' : is_applied (trim_suffix name ".up.sql") l.store ≡ inr (true, l.store) =
          simp (there, is_applied, old) in
        let run : send (is_applied (trim_suffix name ".up.sql")) l ≡ (inr true, next l) =
          rw (up, send, old') in
        rw (run, migrate_one, run) (refl, λ _. refl)
  ]

  migrate_all-again :
      (names : List String) (l : Link S)
      → All (λ n. IsRecorded l.store (trim_suffix n ".up.sql")) names
      → ((migrate_all script files names l).1.store ≡ l.store)
        × (((n : ℕ) → l.fault n ≡ none)
            → migrate_all script files names l ≡ (none, later l (length names)))
  unfolding migrate_all
  migrate_all-again [] l h =
      (refl, λ up. ap (λ n. (none, record l { statements = n })) (omega arith))
  migrate_all-again (n ∷ ns) l (first, rest) =
      let (same, fine) = migrate_one-again n l first in
      let (kept, ends) = migrate_all-again ns (next l) rest in
      (
        elim (Option-cases (migrate_one script files n l).0) [
          | inr (e, stopped) ↦ rw (stopped, migrate_all, same) refl
          | inl on ↦ rw (on, migrate_all, same) kept
        ],
        λ up.
            rw (fine (up l.statements), migrate_all, same)
              (ends up ∙ ap (λ k. (none, record l { statements = k })) (omega arith)),
      )

  -- A run over a store in which every up migration is recorded leaves it as it is, whatever fails;
  -- and if nothing fails it returns no error, after one statement for the table and one query for
  -- each up migration.
  pub migrate_idem :
      (l : Link S)
      → AllRecorded files l.store
      → ((migrate script files l).1.store ≡ l.store)
        × (((n : ℕ) → l.fault n ≡ none)
            → (entries : List Entry) × (files.read_dir ≡ inr entries)
              × (migrate script files l
                  ≡ (none, later l (1 + length (sort_strings (up_names entries))))))
  unfolding migrate
  migrate_idem l (vs, entries, there, listed, all) =
      let names = sort_strings (up_names entries) in
      let (kept, ends) =
        migrate_all-again names (next l) ((sort_strings-All _ (up_names entries)).1 all) in
      let made : create_table l.store ≡ inr (tt, l.store) = simp (there, create_table) in
      (
        elim (sent create_table l) [
          | lost e r ↦ rw (r, migrate, r) refl
          | taken a s q r ↦
              let same : l.store ≡ s = cc (sym made ∙ q) in rw (r, migrate, listed, r, ← same) kept
        ],
        λ up.
            let run : send create_table l ≡ (inr tt, next l) = send-made l made (up l.statements) in
            (
              entries,
              listed,
              rw (run, migrate, listed, run)
                  (ends up ∙ ap (λ k. (none, record l { statements = k })) (omega arith)),
            ),
      )
