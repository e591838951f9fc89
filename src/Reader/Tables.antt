-- ===== src/Reader/Tables.antt =====
-- JptrcrEnumClients, JptrcrEnumModules and JptrcrCloseFile: the enumeration of the two tables, and
-- how closing a file empties them. A callback is the list of what it was called with.
use ntrace.Base.{
  ℕ, ◌≡◌, ◌∙◌, subst, ◌⊎◌, ◌≢◌, inl, inr, Bool-cases, ◌==◌, some, none, List, [], ◌∷◌, ◌++◌, map,
  arith,
}
use ntrace.Base.Table.{Hashtable}
use ntrace.Format.{ClientId}
use ntrace.Calls.{Module}
use ntrace.Reader.Modules.{LoadedModule}
use ntrace.Reader.Inventory.{File}
use ntrace.Reader.Clients.{equals_client}
use ntrace.Reader.Inventory.Registered.{equals_client_iff}

-- JptrcrsRemoveAndDeleteClient and JptrcrpRemoveAndDeleteModule take an entry out of its table and
-- delete it: the table, and the entries that were taken out and freed.
module _ {K V : Type 0} (ht : Hashtable K V) where
  unfoldable pub remove_and_delete : K × V → ht.Table × List V → ht.Table × List V
  remove_and_delete (k, v) (t, freed) =
      let (t', removed) = ht.remove t k in
      elim removed [ none ↦ (t', freed) | some r ↦ (t', freed ++ (r ∷ [])) ]

  unfoldable pub delete_entries : List (K × V) → ht.Table × List V → ht.Table × List V
  delete_entries [] r = r
  delete_entries (e ∷ es) r = delete_entries es (remove_and_delete e r)

module _ (clients : Hashtable ClientId (List ℕ)) (modules : Hashtable ℕ LoadedModule) where
  -- JptrcrEnumClients: the clients that the callback is called with.
  unfoldable pub enum_clients : File clients modules → List ClientId
  enum_clients f = map (λ (e : ClientId × List ℕ). e.0) (clients.entries f.clients_table)

  -- JptrcrEnumModules
  unfoldable pub enum_modules : File clients modules → List Module
  enum_modules f = map (λ (e : ℕ × LoadedModule). e.1.information) (modules.entries f.modules_table)

  -- What JptrcrCloseFile releases: the chunk reference lists, the modules, and the modules whose
  -- symbols JptrcrpDeleteModule unloads.
  pub record Released : Type 0 where
    pub clients_table : clients.Table
    pub modules_table : modules.Table
    pub chunk_refs : List (List ℕ)
    pub loaded_modules : List LoadedModule

  unfoldable pub close_file : File clients modules → Released
  close_file f =
      let (ct, cs) =
        delete_entries clients (clients.entries f.clients_table) (f.clients_table, []) in
      let (mt, ms) =
        delete_entries modules (modules.entries f.modules_table) (f.modules_table, []) in
      record { clients_table = ct; modules_table = mt; chunk_refs = cs; loaded_modules = ms }

module _ {K V : Type 0} where
  -- The key is that of an entry.
  abbrev pub Among : K → List (K × V) → Type 0
  Among k [] = ⊥
  Among k (e ∷ es) = (e.0 ≡ k) ⊎ Among k es

  -- The table has no keys but those of the entries.
  abbrev pub Covers : (ht : Hashtable K V) → ht.Table → List (K × V) → Type 0
  Covers ht t es = (k : K) → (ht.get t k ≡ none) ⊎ Among k es

module _ {K V : Type 0} (ht : Hashtable K V) (decide : (a b : K) → (a ≡ b) ⊎ (a ≢ b)) where
  get-remove :
      (t : ht.Table) (k j : K) → (ht.get t j ≡ none) ⊎ (k ≡ j) → ht.get (ht.remove t k).0 j ≡ none
  get-remove t k j h = elim (decide k j) [
    | inl e ↦ subst (λ i. ht.get (ht.remove t k).0 i ≡ none) e (ht.get-remove_self t k)
    | inr n ↦ ht.get-remove_ne t k j n ∙ elim h [ inl e ↦ e | inr e ↦ absurd (n e) ]
  ]

  table-remove_and_delete :
      (e : K × V) (t : ht.Table) (freed : List V)
      → (remove_and_delete ht e (t, freed)).0 ≡ (ht.remove t e.0).0
  unfolding remove_and_delete
  table-remove_and_delete (k, v) t freed = ground arith

  Covers-remove :
      (t : ht.Table) (e : K × V) (es : List (K × V))
      → Covers ht t (e ∷ es)
      → Covers ht (ht.remove t e.0).0 es
  Covers-remove t e es h k = elim (h k) [
    | inl a ↦ inl (get-remove t e.0 k (inl a))
    | inr (inl b) ↦ inl (get-remove t e.0 k (inr b))
    | inr (inr c) ↦ inr c
  ]

  -- Deleting the entries of a table empties it.
  pub get-delete_entries :
      (es : List (K × V)) (t : ht.Table) (freed : List V)
      → Covers ht t es
      → (k : K) → ht.get (delete_entries ht es (t, freed)).0 k ≡ none
  unfolding delete_entries
  get-delete_entries [] t freed h k = elim (h k) [ inl e ↦ e | inr e ↦ absurd e ]
  get-delete_entries (e ∷ es) t freed h k =
      let r = remove_and_delete ht e (t, freed) in
      get-delete_entries es r.0 r.1
        (rw (table-remove_and_delete e t freed) (Covers-remove t e es h)) k

decide_address : (a b : ℕ) → (a ≡ b) ⊎ (a ≢ b)
decide_address a b = elim (Bool-cases (a == b)) [
  | inl e ↦ inl (ground arith)
  | inr e ↦ inr (λ q. ground arith)
]

decide_client : (a b : ClientId) → (a ≡ b) ⊎ (a ≢ b)
decide_client a b = elim (Bool-cases (equals_client a b)) [
  | inl e ↦ inl ((equals_client_iff a b).0 e)
  | inr e ↦ inr (λ q. ground (arith, (equals_client_iff a b).1 q))
]

module _ (clients : Hashtable ClientId (List ℕ)) (modules : Hashtable ℕ LoadedModule) where
  -- Closing a file takes every client and every module out of its tables, if their enumeration
  -- reports every key that they hold.
  pub close_file-empties :
      (f : File clients modules)
      → Covers clients f.clients_table (clients.entries f.clients_table)
      → Covers modules f.modules_table (modules.entries f.modules_table)
      → ((c : ClientId) → clients.get (close_file clients modules f).clients_table c ≡ none)
        × ((a : ℕ) → modules.get (close_file clients modules f).modules_table a ≡ none)
  unfolding close_file
  close_file-empties f h i = (
    get-delete_entries clients decide_client (clients.entries f.clients_table) f.clients_table [] h,
    get-delete_entries modules decide_address (modules.entries f.modules_table) f.modules_table []
        i,
  )
