-- ===== src/Archive/Growth.antt =====
-- What every call of `begin` and `append_chunk` of backend/app/services/v2_source_logs.py keeps: the chunks
-- with their acknowledgements, and the bindings of the transfers.
use smd_web_hmi.Prelude.{
  ℕ, ◌≡◌, refl, sym, ap, ◌∙◌, inl, inr, ◌&&◌, Option, none, some, List, [], ◌∷◌, ◌==◌, arith,
  Bool-cases, if-true, if-false, &&-true, ==_eq, Pairs, some_injective,
}
use mathlib.Core.Path.{subst}
use smd_web_hmi.Archive.Model.{TransferRow, ChunkRow, Db, find_transfer, put_transfer, find_chunk}

-- A row is kept but for its progress.
pub record IsKept (r r' : TransferRow) : Type 0 where
  pub id : r'.transfer_id ≡ r.transfer_id
  pub bindings : r'.bindings ≡ r.bindings

pub record IsGrown (db db' : Db) : Type 0 where
  pub chunk :
      (id index : ℕ) {c : ChunkRow}
      → find_chunk id index db.chunks ≡ some c
      → find_chunk id index db'.chunks ≡ some c
  pub transfer :
      (id : ℕ) {r : TransferRow}
      → find_transfer id db.transfers ≡ some r
      → (r' : TransferRow) × (find_transfer id db'.transfers ≡ some r') × IsKept r r'

pub none_not_some : {A : Type 0} {a : A} → ◌≡◌ {A = Option A} none (some a) → ⊥
none_not_some h = ground arith

pub IsKept-refl : (r : TransferRow) → IsKept r r
IsKept-refl r = record { id = refl; bindings = refl }

pub IsGrown-refl : (db : Db) → IsGrown db db
IsGrown-refl db = record { chunk = λ id index h. h; transfer = λ id {r} h. (r, h, IsKept-refl r) }

pub IsGrown-trans : {a b c : Db} → IsGrown a b → IsGrown b c → IsGrown a c
IsGrown-trans g h = record {
  chunk = λ id index found. h.chunk id index (g.chunk id index found);
  transfer = λ id found.
      let (r1, found1, k1) = g.transfer id found in
      let (r2, found2, k2) = h.transfer id found1 in
      (r2, found2, record { id = k2.id ∙ k1.id; bindings = k2.bindings ∙ k1.bindings });
}

Pairs-refl : (rs : List TransferRow) → Pairs IsKept rs rs
Pairs-refl [] = tt
Pairs-refl (r ∷ rs) = (IsKept-refl r, Pairs-refl rs)

put_transfer-Pairs :
    (id : ℕ) (f : TransferRow → TransferRow) (rs : List TransferRow)
    → ((s : TransferRow) → find_transfer id rs ≡ some s → IsKept s (f s))
    → Pairs IsKept rs (put_transfer id f rs)
unfolding put_transfer find_transfer
put_transfer-Pairs id f [] k = tt
put_transfer-Pairs id f (s ∷ rs) k = elim (Bool-cases (s.transfer_id == id)) [
  | inl changed ↦
      subst (Pairs IsKept (s ∷ rs)) (sym (if-true _ _ changed))
        (k s (if-true _ _ changed), Pairs-refl rs)
  | inr other ↦
      subst (Pairs IsKept (s ∷ rs)) (sym (if-false _ _ other))
        (IsKept-refl s, put_transfer-Pairs id f rs (λ s' found. k s' (if-false _ _ other ∙ found)))
]

Pairs-find_transfer :
    (id : ℕ) (rs rs' : List TransferRow) {r : TransferRow}
    → Pairs IsKept rs rs'
    → find_transfer id rs ≡ some r
    → (r' : TransferRow) × (find_transfer id rs' ≡ some r') × IsKept r r'
unfolding find_transfer
Pairs-find_transfer id [] rs' p h = cc
Pairs-find_transfer id (s ∷ rs) [] p h = elim p [ ]
Pairs-find_transfer id (s ∷ rs) (s' ∷ rs') {r} (k, p) h = elim (Bool-cases (s.transfer_id == id)) [
  | inl same ↦
      let is_s : s ≡ r = some_injective (sym (if-true _ _ same) ∙ h) in
      (
        s',
        if-true {b = s'.transfer_id == id} _ _ (ap (λ x. x == id) k.id ∙ same),
        subst (λ x. IsKept x s') is_s k,
      )
  | inr other ↦
      let (r', found, kept_) =
        Pairs-find_transfer id rs rs' {r = r} p (sym (if-false _ _ other) ∙ h) in
      (r', if-false {b = s'.transfer_id == id} _ _ (ap (λ x. x == id) k.id ∙ other) ∙ found, kept_)
]

pub put_transfer-IsGrown :
    (id : ℕ) (f : TransferRow → TransferRow) (db : Db)
    → ((s : TransferRow) → find_transfer id db.transfers ≡ some s → IsKept s (f s))
    → IsGrown db (record db { transfers = put_transfer id f db.transfers })
put_transfer-IsGrown id f db k = record {
  chunk = λ id index h. h;
  transfer = λ wanted found.
      Pairs-find_transfer wanted db.transfers _ (put_transfer-Pairs id f db.transfers k) found;
}

-- A chunk that is not there comes before the others.
pub add_chunk-find_chunk :
    (c : ChunkRow) (cs : List ChunkRow) (id index : ℕ) {found : ChunkRow}
    → find_chunk c.metadata.transfer_id c.metadata.chunk_index cs ≡ none
    → find_chunk id index cs ≡ some found
    → find_chunk id index (c ∷ cs) ≡ some found
unfolding find_chunk
add_chunk-find_chunk c cs id index new h =
    elim (Bool-cases ((c.metadata.transfer_id == id) && (c.metadata.chunk_index == index))) [
      | inl same ↦
          let (same_id, same_index) =
            &&-true (c.metadata.transfer_id == id) (c.metadata.chunk_index == index) same in
          let twice : find_chunk id index cs ≡ none =
            subst (λ x. find_chunk x index cs ≡ none) (==_eq c.metadata.transfer_id id same_id)
              (subst (λ x. find_chunk c.metadata.transfer_id x cs ≡ none)
                (==_eq c.metadata.chunk_index index same_index) new) in
          elim (none_not_some (sym twice ∙ h)) [ ]
      | inr other ↦ if-false _ _ other ∙ h
    ]
