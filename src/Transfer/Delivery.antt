-- ===== src/Transfer/Delivery.antt =====
-- A client that acknowledges each chunk of `LogTransfer`, backend/app/hostcomm/v2_simulator/transfers.py,
-- gets all bytes of the cut.
use smd_web_hmi.Prelude.{
  ℕ, zero, suc, ◌+◌, ◌*◌, ◌<◌, ◌≤◌, ◌≡◌, ◌↔◌, refl, ap, ◌∙◌, sym, inl, inr, true, false, Option,
  none, some, List, [], ◌∷◌, ◌++◌, length, min, take, drop, ok, leb, ==?_refl, arith, Bool-cases,
  Option-cases,
}
use smd_web_hmi.Transfer.Model.{LogChunk, LogAck}
use smd_web_hmi.Transfer.Log.{LogTransfer}
use smd_web_hmi.Transfer.Ack.{
  committed, same_ack, is_last_ack, chunk, chunk_end, acknowledges, ack_part, ack,
}

module _ {ℓ} {A : Type ℓ} where
  drop-all : (n : ℕ) (xs : List A) → length xs ≤ n → drop n xs ≡ []
  drop-all zero [] h = refl
  drop-all zero (x ∷ xs) h = absurd (omega (arith, h))
  drop-all (suc n) [] h = refl
  drop-all (suc n) (x ∷ xs) h = drop-all n xs (omega (arith, h))

  take-drop : (n : ℕ) (xs : List A) → take n xs ++ drop n xs ≡ xs
  take-drop zero xs = refl
  take-drop (suc n) [] = refl
  take-drop (suc n) (x ∷ xs) = ap (λ l. x ∷ l) (take-drop n xs)

  drop-drop : (n k : ℕ) (xs : List A) → drop k (drop n xs) ≡ drop (n + k) xs
  drop-drop zero k xs = let sum : zero + k ≡ k = omega arith in rw sum refl
  drop-drop (suc n) zero [] = let sum : suc n + zero ≡ suc n = omega arith in rw sum refl
  drop-drop (suc n) (suc k) [] =
      let sum : suc n + suc k ≡ suc (n + suc k) = omega arith in rw sum refl
  drop-drop (suc n) k (x ∷ xs) =
      let sum : suc n + k ≡ suc (n + k) = omega arith in rw sum (drop-drop n k xs)

  take-drop-add : (n k : ℕ) (xs : List A) → take k (drop n xs) ++ drop (n + k) xs ≡ drop n xs
  take-drop-add n k xs = rw (← drop-drop n k xs) (take-drop k (drop n xs))

  -- A piece of `k` elements and what follows it, up to the end of the list.
  take-drop-min :
      (n k : ℕ) (xs : List A) → take k (drop n xs) ++ drop (min (length xs) (n + k)) xs ≡ drop n xs
  take-drop-min n k xs = elim (Bool-cases (leb (n + k) (length xs))) [
    | inl inside ↦
        let end : min (length xs) (n + k) ≡ n + k = ground arith in rw end (take-drop-add n k xs)
    | inr past ↦
        let end : min (length xs) (n + k) ≡ length xs = ground arith in
        let whole = take-drop-add n k xs in
        rw end (
          rw (drop-all (length xs) xs (omega arith))
            (rw (drop-all (n + k) xs (ground arith)) at whole))
  ]

-- No acknowledgement of the chunk that comes next was seen.
abbrev pub IsFresh : LogTransfer → Type 0
IsFresh t = (a : LogAck) → t.last_ack ≡ some a → a.chunk_index < t.index

module _ (sha256 : List ℕ → ℕ) where
  -- The acknowledgement of a chunk that arrived.
  unfoldable pub good_ack : LogTransfer → LogChunk → LogAck
  good_ack t part = record {
    transfer_id = part.transfer_id;
    log_id = part.log_id;
    chunk_index = part.chunk_index;
    chunk_digest = part.chunk_digest;
    next_offset = chunk_end sha256 t;
    committed_record_seq = committed (chunk_end sha256 t) t.boundaries;
  }

  unfoldable pub deliver_part : Option LogChunk → LogTransfer → List ℕ × LogTransfer
  deliver_part none t = ([], t)
  deliver_part (some part) t = (part.data_b64, (ack sha256 (good_ack t part) t).1)

  -- What a client receives that acknowledges up to `rounds` chunks, one after the other.
  unfoldable pub deliver : ℕ → LogTransfer → List ℕ × LogTransfer
  deliver zero t = ([], t)
  deliver (suc rounds) t =
      let (part, next) = deliver_part (chunk sha256 t) t in
      let (rest, last) = deliver rounds next in (part ++ rest, last)

  acknowledges-good_ack :
      (t : LogTransfer) (part : LogChunk) → acknowledges sha256 t part (good_ack t part) ≡ true
  unfolding acknowledges good_ack
  acknowledges-good_ack t part =
      ground (arith, ==?_refl (committed (chunk_end sha256 t) t.boundaries))

  is_last_ack-good_ack :
      (t : LogTransfer) (part : LogChunk)
      → IsFresh t
      → part.chunk_index ≡ t.index
      → is_last_ack t.last_ack (good_ack t part) ≡ false
  unfolding is_last_ack same_ack good_ack
  is_last_ack-good_ack t part fresh e = elim (Option-cases t.last_ack) [
    | inl nothing ↦ rw nothing refl
    | inr (a, seen) ↦ rw seen (ground (arith, fresh a seen))
  ]

  -- What a transfer becomes when its chunk is acknowledged.
  unfoldable pub advanced : LogTransfer → LogAck → LogTransfer
  advanced t a = record t {
    last_ack = some a;
    offset = chunk_end sha256 t;
    index = t.index + 1;
    retries = 0;
  }

  chunk_parts :
      (t : LogTransfer) {part : LogChunk}
      → chunk sha256 t ≡ some part
      → (part.chunk_index ≡ t.index)
        × (part.data_b64 ≡ take 1536 (drop t.offset t.raw))
        × (t.offset < length t.raw)
  unfolding chunk
  chunk_parts t sent = (ground arith, ground arith, ground arith)

  ack-good_ack :
      (t : LogTransfer) (part : LogChunk)
      → IsFresh t
      → chunk sha256 t ≡ some part
      → ack sha256 (good_ack t part) t ≡ (ok true, advanced t (good_ack t part))
  unfolding ack ack_part advanced
  ack-good_ack t part fresh sent =
      rw (is_last_ack-good_ack t part fresh (chunk_parts t sent).0)
        (rw sent (rw (acknowledges-good_ack t part) refl))

  advanced-IsFresh :
      (t : LogTransfer) (part : LogChunk)
      → part.chunk_index ≡ t.index
      → IsFresh (advanced t (good_ack t part))
  unfolding advanced good_ack
  advanced-IsFresh t part e a seen = ground arith

  chunk-none : (t : LogTransfer) → (chunk sha256 t ≡ none) ↔ (length t.raw ≤ t.offset)
  unfolding chunk
  chunk-none t = (λ h. ground arith, λ h. ground arith)

  deliver-done : (rounds : ℕ) (t : LogTransfer) → chunk sha256 t ≡ none → deliver rounds t ≡ ([], t)
  unfolding deliver deliver_part
  deliver-done zero t h = refl
  deliver-done (suc rounds) t h = rw h (rw (deliver-done rounds t h) refl)

  deliver_part-sent :
      (t : LogTransfer) (part : LogChunk)
      → IsFresh t
      → chunk sha256 t ≡ some part
      → deliver_part (chunk sha256 t) t ≡ (part.data_b64, advanced t (good_ack t part))
  unfolding deliver_part
  deliver_part-sent t part fresh sent =
      rw sent (ap (λ r. (part.data_b64, r.1)) (ack-good_ack t part fresh sent))

  -- A client that acknowledges every chunk of a transfer whose next chunk is not acknowledged yet
  -- receives the bytes of the cut from the offset on, each once and in order, and then there is no
  -- chunk left, if it has one round per 1536 bytes.
  pub deliver-raw :
      (rounds : ℕ) (t : LogTransfer)
      → IsFresh t
      → length t.raw ≤ t.offset + 1536 * rounds
      → ((deliver rounds t).0 ≡ drop t.offset t.raw) × (chunk sha256 (deliver rounds t).1 ≡ none)
  unfolding deliver advanced chunk_end good_ack
  deliver-raw zero t fresh enough =
      let all : length t.raw ≤ t.offset = omega (arith, enough) in
      (sym (drop-all t.offset t.raw all), (chunk-none t).1 all)
  deliver-raw (suc rounds) t fresh enough = elim (Option-cases (chunk sha256 t)) [
    | inl nothing ↦
        let done = deliver-done (suc rounds) t nothing in
        (
          ap (λ r. r.0) done ∙ sym (drop-all t.offset t.raw ((chunk-none t).0 nothing)),
          ap (λ r. chunk sha256 r.1) done ∙ nothing,
        )
    | inr (part, sent) ↦
        let (index, data_, inside) = chunk_parts t sent in
        let (rest, end) =
          deliver-raw rounds (advanced t (good_ack t part)) (advanced-IsFresh t part index)
            (omega (arith, enough)) in
        rw (deliver_part-sent t part fresh sent)
          (rw data_ (rw rest (take-drop-min t.offset 1536 t.raw)), end)
  ]
