-- ===== src/Server/Migrate.antt =====
-- server/migrate.go: the migrations of the embedded directory, each in a transaction.
--
-- What a script does to the tables is PostgreSQL's: `script` is a parameter, over any type `S` of
-- tables, and so is the embedded directory. Each statement takes the next number, by which it may
-- fail. A transaction that does not reach its commit, or whose commit fails, has not taken place.
pub mod Laws
pub mod Listing
pub mod Runs
pub mod Again
pub mod Live
use Prim.Native.String
use computeid_go.Common.{
  ℕ, ◌+◌, String, Bool, true, false, ◌||◌, Option, none, some, List, [], ◌∷◌, ◌++◌, ◌⊎◌, inl, inr,
  ◌==◌, if◌then◌else◌, text_leb,
}

infixr 65 ◌<>◌
abbrev ◌<>◌ : String → String → String
s <> t = String.◌++◌ s t

-- The tables, and the rows of `schema_migrations`, where that table is there.
pub record Store {ℓ} (S : Type ℓ) : Type ℓ where
  pub tables : S
  pub versions : Option (List String)

pub record Link {ℓ} (S : Type ℓ) : Type ℓ where
  pub store : Store S
  pub fault : ℕ → Option String
  pub statements : ℕ

pub record Entry : Type 0 where
  pub name : String
  pub is_dir : Bool

-- `embed.FS`: `ReadDir` of the directory, and `ReadFile` of a name in it.
pub record Files : Type 0 where
  pub read_dir : String ⊎ List Entry
  pub read_file : String → String ⊎ String

-- What follows up to the suffix, if the text ends in it.
unfoldable pub strip_suffix : String → String → Option String
strip_suffix suffix String.[] = if String.[] == suffix then some String.[] else none
strip_suffix suffix (String.◌∷◌ c s) =
    let rest = strip_suffix suffix s in
    if String.◌∷◌ c s == suffix
    then some String.[]
    else elim rest [ none ↦ none | some t ↦ some (String.◌∷◌ c t) ]

-- `strings.HasSuffix` and `strings.TrimSuffix`
abbrev pub has_suffix : String → String → Bool
has_suffix s suffix = elim (strip_suffix suffix s) [ none ↦ false | some _ ↦ true ]

abbrev pub trim_suffix : String → String → String
trim_suffix s suffix = elim (strip_suffix suffix s) [ none ↦ s | some t ↦ t ]

-- The loop over the entries.
unfoldable pub up_names : List Entry → List String
up_names [] = []
up_names (e ∷ es) = elim e.is_dir [
  | true ↦ up_names es
  | false ↦ if has_suffix e.name ".up.sql" then e.name ∷ up_names es else up_names es
]

-- `sort.Strings`
unfoldable pub place : String → List String → List String
place x [] = x ∷ []
place x (y ∷ ys) = if text_leb x y then x ∷ y ∷ ys else y ∷ place x ys

unfoldable pub sort_strings : List String → List String
unfolding place
sort_strings [] = []
sort_strings (x ∷ xs) = place x (sort_strings xs)

unfoldable pub recorded : String → List String → Bool
recorded v [] = false
recorded v (u ∷ us) = if u == v then true else recorded v us

module _ {ℓ} {S : Type ℓ} where
  -- A statement gives a result and the new store, or fails and changes nothing.
  unfoldable pub send {κ} :
      {A : Type κ} → (Store S → String ⊎ (A × Store S)) → Link S → (String ⊎ A) × Link S
  send q l =
      let l' = record l { statements = l.statements + 1 } in
      elim (l.fault l.statements) [
        | some e ↦ (inl e, l')
        | none ↦ elim (q l.store) [
          | inl e ↦ (inl e, l')
          | inr (a, s) ↦ (inr a, record l' { store = s })
        ]
      ]

  -- `CREATE TABLE IF NOT EXISTS schema_migrations`
  abbrev pub create_table : Store S → String ⊎ (Unit {0} × Store S)
  create_table s = elim s.versions [
    | none ↦ inr (tt, record s { versions = some [] })
    | some _ ↦ inr (tt, s)
  ]

  -- `SELECT EXISTS(SELECT 1 FROM schema_migrations WHERE version = $1)`
  abbrev pub is_applied : String → Store S → String ⊎ (Bool × Store S)
  is_applied v s = elim s.versions [
    | none ↦ inl "relation schema_migrations does not exist"
    | some vs ↦ inr (recorded v vs, s)
  ]

  -- `Begin` and `Commit`
  abbrev pub border : Store S → String ⊎ (Unit {0} × Store S)
  border s = inr (tt, s)

  -- The script of a migration.
  abbrev pub run_script :
      (String → S → String ⊎ S) → String → Store S → String ⊎ (Unit {0} × Store S)
  run_script script body s = elim (script body s.tables) [
    | inl e ↦ inl e
    | inr t ↦ inr (tt, record s { tables = t })
  ]

  -- `INSERT INTO schema_migrations (version) VALUES ($1)`, on the primary key.
  abbrev pub record_version : String → Store S → String ⊎ (Unit {0} × Store S)
  record_version v s = elim s.versions [
    | none ↦ inl "relation schema_migrations does not exist"
    | some vs ↦
        if recorded v vs
        then inl "duplicate key value violates unique constraint"
        else inr (tt, record s { versions = some (vs ++ v ∷ []) })
  ]

  -- `tx.Rollback`, or the end of a transaction that was not committed.
  abbrev pub back_to : Store S → Link S → Link S
  back_to saved l = record l { store = saved }

  -- The transaction of one migration, from `Begin` on; the result is the error, if there is one.
  unfoldable pub commit_version : Store S → Link S → Option String × Link S
  unfolding send
  commit_version saved l =
      let (r, l') = send border l in
      elim r [ inl e ↦ (some e, back_to saved l') | inr _ ↦ (none, l') ]

  unfoldable pub insert_version : Store S → String → Link S → Option String × Link S
  insert_version saved v l =
      let (r, l') = send (record_version v) l in
      elim r [ inl e ↦ (some e, back_to saved l') | inr _ ↦ commit_version saved l' ]

  unfoldable pub apply_script :
      (String → S → String ⊎ S) → Store S → String → String → Link S → Option String × Link S
  apply_script script saved v body l =
      let (r, l') = send (run_script script body) l in
      elim r [
        | inl e ↦ (some ("apply " <> v <> ": " <> e), back_to saved l')
        | inr _ ↦ insert_version saved v l'
      ]

  unfoldable pub apply_version :
      (String → S → String ⊎ S) → String → String → Link S → Option String × Link S
  apply_version script v body l =
      let (r, l') = send border l in
      elim r [ inl e ↦ (some e, l') | inr _ ↦ apply_script script l'.store v body l' ]

  abbrev pub read_and_apply :
      (String → S → String ⊎ S) → Files → String → String → Link S → Option String × Link S
  read_and_apply script files name v l = elim (files.read_file name) [
    | inl e ↦ (some e, l)
    | inr body ↦ apply_version script v body l
  ]

  -- One round of the loop.
  unfoldable pub migrate_one :
      (String → S → String ⊎ S) → Files → String → Link S → Option String × Link S
  migrate_one script files name l =
      let v = trim_suffix name ".up.sql" in
      let (r, l') = send (is_applied v) l in
      elim r [
        | inl e ↦ (some ("check " <> v <> ": " <> e), l')
        | inr true ↦ (none, l')
        | inr false ↦ read_and_apply script files name v l'
      ]

  unfoldable pub migrate_all :
      (String → S → String ⊎ S) → Files → List String → Link S → Option String × Link S
  migrate_all script files [] l = (none, l)
  migrate_all script files (name ∷ names) l =
      let (r, l') = migrate_one script files name l in
      elim r [ some e ↦ (some e, l') | none ↦ migrate_all script files names l' ]

  -- `Migrate`
  unfoldable pub migrate : (String → S → String ⊎ S) → Files → Link S → Option String × Link S
  migrate script files l =
      let (r, l') = send create_table l in
      elim r [
        | inl e ↦ (some ("create schema_migrations: " <> e), l')
        | inr _ ↦ elim files.read_dir [
          | inl e ↦ (some e, l')
          | inr entries ↦ migrate_all script files (sort_strings (up_names entries)) l'
        ]
      ]
