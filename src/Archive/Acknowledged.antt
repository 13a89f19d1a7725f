-- ===== src/Archive/Acknowledged.antt =====
-- A chunk that `append_chunk` of backend/app/services/v2_source_logs.py has acknowledged stays acknowledged.
use smd_web_hmi.Prelude.{
  ℕ, ◌≡◌, refl, sym, ap, ◌∙◌, inl, inr, true, false, not, ◌&&◌, Option, none, some, List, [], ◌∷◌,
  ◌==◌, arith, Bool-cases, some_injective, if-cases, not-false, if-true, if-false, ok_injective,
  Result, ok, err,
}
use mathlib.Core.Path.{subst}
use smd_web_hmi.Transfer.Model.{LogChunk, LogAck}
use smd_web_hmi.Archive.Model.{
  Frame, TransferRow, ChunkRow, Db, SourceRecord, StoreError, log_chunk, is_receiving, is_failed,
  same_bytes, same_chunk, find_transfer, find_chunk,
}
use smd_web_hmi.Archive.Receive.{
  ack_of, receive, commit_chunk, append_to, append_found, or_fail, bound, append_chunk,
}
use smd_web_hmi.Archive.Trace.{Step, Reach}
use smd_web_hmi.Archive.Growth.{IsKept, IsGrown, IsGrown-trans}
use smd_web_hmi.Archive.Retransmit.{Step-IsGrown, Reach-IsGrown}

same_bytes_refl : (xs : List ℕ) → same_bytes xs xs ≡ true
unfolding same_bytes
same_bytes_refl [] = refl
same_bytes_refl (x ∷ xs) = ground (arith, same_bytes_refl xs)

same_chunk_refl : (c : LogChunk) → same_chunk c c ≡ true
unfolding same_chunk
same_chunk_refl c = ground (arith, same_bytes_refl c.data_b64)

-- The chunk is in the table, with its acknowledgement.
pub record IsAcked (part : LogChunk) (ack : LogAck) (db : Db) : Type 0 where
  pub row : ChunkRow
  pub found : find_chunk part.transfer_id part.chunk_index db.chunks ≡ some row
  pub same : same_chunk row.metadata part ≡ true
  pub is_ack : row.ack ≡ ack

IsGrown-IsAcked :
    (part : LogChunk) {ack : LogAck} {db db' : Db}
    → IsGrown db db'
    → IsAcked part ack db
    → IsAcked part ack db'
IsGrown-IsAcked part g a = record {
  row = a.row;
  found = g.chunk part.transfer_id part.chunk_index a.found;
  same = a.same;
  is_ack = a.is_ack;
}

bound-IsKept :
    (f : Frame) (r r' : TransferRow)
    → IsKept r r'
    → bound r f log_chunk ≡ true
    → bound r' f log_chunk ≡ true
unfolding bound
bound-IsKept f r r' k h =
    subst (λ b. bound (record r { bindings = b }) f log_chunk ≡ true) (sym k.bindings) h

-- A call that returns the acknowledgement leaves tables with it.
abbrev Acks : LogChunk → LogAck → Result StoreError LogAck × Db → Type 0
Acks part ack x = x.0 ≡ ok ack → IsAcked part ack x.1

err_not_ok : {E A : Type 0} {e : E} {a : A} → ◌≡◌ {A = Result E A} (err e) (ok a) → ⊥
err_not_ok h = ground arith

module _ (sha256 : List ℕ → ℕ) (load : List ℕ → Option SourceRecord)
    (canonical : SourceRecord → List ℕ) where
  commit_chunk-IsAcked :
      (part : LogChunk) (x : Result StoreError TransferRow) (db : Db) {ack : LogAck}
      → (commit_chunk sha256 load canonical part x db).0 ≡ ok ack
      → IsAcked part ack (commit_chunk sha256 load canonical part x db).1
  unfolding commit_chunk find_chunk
  commit_chunk-IsAcked part (err e) db h = elim (err_not_ok h) [ ]
  commit_chunk-IsAcked part (ok r) db h = record {
    row = record { metadata = part; ack = ack_of sha256 load canonical part r };
    found =
        if-true
          {b = (part.transfer_id == part.transfer_id) && (part.chunk_index == part.chunk_index)} _ _
          (ground arith);
    same = same_chunk_refl part;
    is_ack = ok_injective h;
  }

  append_to-IsAcked :
      (part : LogChunk) (r : TransferRow) (previous : Option ChunkRow) (db : Db) {ack : LogAck}
      → find_chunk part.transfer_id part.chunk_index db.chunks ≡ previous
      → (append_to sha256 load canonical part r previous db).0 ≡ ok ack
      → IsAcked part ack (append_to sha256 load canonical part r previous db).1
  unfolding append_to
  append_to-IsAcked part r (some c) db {ack} eq h = elim (Bool-cases (same_chunk c.metadata part)) [
    | inl same ↦
        subst (Acks part ack) (sym (if-true _ _ same))
          (λ e. record { row = c; found = eq; same = same; is_ack = ok_injective e }) h
    | inr other ↦ subst (Acks part ack) (sym (if-false _ _ other)) (λ e. elim (err_not_ok e) [ ]) h
  ]
  append_to-IsAcked part r none db {ack} eq h =
      if-cases (Acks part ack) (is_receiving r.status) _ _
        (λ e. commit_chunk-IsAcked part (receive sha256 load canonical part r) db e)
        (λ e. elim (err_not_ok e) [ ]) h

  append_found-IsAcked :
      (f : Frame) (part : LogChunk) (found : Option TransferRow) (db : Db) {ack : LogAck}
      → (append_found sha256 load canonical f part found db).0 ≡ ok ack
      → IsAcked part ack (append_found sha256 load canonical f part found db).1
        × (r : TransferRow) × (found ≡ some r)
        × (bound r f log_chunk ≡ true)
  unfolding append_found
  append_found-IsAcked f part none db h = elim (err_not_ok h) [ ]
  append_found-IsAcked f part (some r) db {ack} h = elim (Bool-cases (not (bound r f log_chunk))) [
    | inl mismatch ↦
        elim (err_not_ok
          (sym (ap (λ x. x.0) (if-true {A = Result StoreError LogAck × Db} _ _ mismatch)) ∙ h)) [ ]
    | inr is_bound ↦ (
      subst (Acks part ack) (sym (if-false _ _ is_bound))
          (if-cases (Acks part ack) (is_failed r.status) _ _ (λ e. elim (err_not_ok e) [ ])
            (λ e.
              append_to-IsAcked part r (find_chunk part.transfer_id part.chunk_index db.chunks) db
                refl e))
          h,
      r,
      refl,
      not-false (bound r f log_chunk) is_bound,
    )
  ]

  or_fail-ok :
      (id : ℕ) (x : Result StoreError LogAck × Db) {ack : LogAck}
      → (or_fail sha256 load canonical id x).0 ≡ ok ack
      → (x.0 ≡ ok ack) × ((or_fail sha256 load canonical id x).1 ≡ x.1)
  unfolding or_fail
  or_fail-ok id (ok a, db) h = (h, refl)
  or_fail-ok id (err e, db) h = elim (err_not_ok h) [ ]

  -- The answer to a chunk that is in the tables, when its transfer has not failed.
  append_found-repeat :
      (f : Frame) (part : LogChunk) (r : TransferRow) (db : Db) {ack : LogAck}
      → IsAcked part ack db
      → bound r f log_chunk ≡ true
      → is_failed r.status ≡ false
      → append_found sha256 load canonical f part (some r) db ≡ (ok ack, db)
  unfolding append_found append_to
  append_found-repeat f part r db {ack} a is_bound alive =
      if-false {b = not (bound r f log_chunk)} _ _ (ap not is_bound)
      ∙ (if-false {b = is_failed r.status} _ _ alive
          ∙ (ap (λ o. append_to sha256 load canonical part r o db) a.found
              ∙ (if-true {b = same_chunk a.row.metadata part} _ _ a.same
                  ∙ ap (λ y. (ok y, db)) a.is_ack)))

  -- A chunk was acknowledged, any calls followed, and its transfer has not failed since: the same chunk in the
  -- same frame gets the same acknowledgement again and changes nothing, so no record of it counts twice.
  pub append_chunk-repeat :
      (f : Frame) (part : LogChunk) (db : Db) {db' : Db} {ack : LogAck} (r : TransferRow)
      → (append_chunk sha256 load canonical f part db).0 ≡ ok ack
      → Reach sha256 load canonical (append_chunk sha256 load canonical f part db).1 db'
      → find_transfer part.transfer_id db'.transfers ≡ some r
      → is_failed r.status ≡ false
      → append_chunk sha256 load canonical f part db' ≡ (ok ack, db')
  unfolding append_chunk
  append_chunk-repeat f part db {db'} {ack} r acked h found alive =
      let (returned, same_db) =
        or_fail-ok part.transfer_id
          (append_found sha256 load canonical f part (find_transfer part.transfer_id db.transfers)
            db)
          acked in
      let (now_acked, r0, is_r0, bound0) =
        append_found-IsAcked f part (find_transfer part.transfer_id db.transfers) db returned in
      let later = Reach-IsGrown sha256 load canonical h in
      let (r', found', kept_) =
        (IsGrown-trans (Step-IsGrown sha256 load canonical (Step.append_chunk f part))
            later).transfer
          part.transfer_id is_r0 in
      let is_bound =
        bound-IsKept f r0 r (subst (IsKept r0) (some_injective (sym found' ∙ found)) kept_)
          bound0 in
      let still_acked =
        IsGrown-IsAcked part later (subst (IsAcked part ack) (sym same_db) now_acked) in
      ap
        (λ o.
          or_fail sha256 load canonical part.transfer_id
            (append_found sha256 load canonical f part o db'))
        found
      ∙ (ap (or_fail sha256 load canonical part.transfer_id)
            (append_found-repeat f part r db' still_acked is_bound alive)
          ∙ (unfold or_fail in refl))
