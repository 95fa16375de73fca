-- ===== src/MediaSender/Chunks.antt =====
-- What a receiver makes of the chunks.
use lpr_refactored.Prelude.{
  ℕ, zero, suc, ◌+◌, ◌-◌, ◌/◌, ◌≡◌, ◌<◌, refl, sym, ap, ◌∙◌, true, false, some, List, [], ◌∷◌, ◌++◌,
  arith, ltb, leb, is_empty, length, length-drop, take, drop, Text, Bool-cases, inl, inr,
}
use native.Mathlib.Nat.{div-eq-sub-div, div-eq_of_lt}
use lpr_refactored.MediaSender.{
  Config, Chunk, chunks, send_chunks, chunk_message, chunk_size, send_file, upload_recording,
}

chunks-zero : (c : ℕ) → 0 < c → chunks c 0 ≡ 0
unfolding chunks
chunks-zero c h = div-eq_of_lt (omega (arith, h))

chunks-step : (c n : ℕ) → 0 < c → 0 < n → chunks c n ≡ suc (chunks c (n - c))
unfolding chunks
chunks-step c n h k =
    div-eq-sub-div h (omega (arith, h, k))
    ∙ ap (λ m. m / c + 1) {y = n - 1} (omega (arith, h, k))
    ∙ elim (Bool-cases (ltb c n)) [
      | inl e ↦ ap (λ m. m / c + 1) {y = n - c + c - 1} (ground (arith, h, e)) ∙ omega arith
      | inr e ↦
          ap (λ m. m + 1) (div-eq_of_lt {n = n - 1} {m = c} (ground (arith, h, k, e)))
          ∙ omega arith
          ∙ ap suc (sym (div-eq_of_lt {n = n - c + c - 1} {m = c} (ground (arith, h, e))))
    ]

take-drop : {A : Type 0} (n : ℕ) (l : List A) → take n l ++ drop n l ≡ l
take-drop zero l = refl
take-drop (suc n) [] = refl
take-drop (suc n) (a ∷ l) = ap (λ x. a ∷ x) (take-drop n l)

take_nonempty :
    {A : Type 0} (n : ℕ) (l : List A) → 0 < n → 0 < length l → is_empty (take n l) ≡ false
take_nonempty zero l h k = absurd (omega (arith, h))
take_nonempty (suc n) [] h k = absurd (omega (arith, k))
take_nonempty (suc n) (a ∷ l) h k = refl

drop_all : {A : Type 0} (n : ℕ) (l : List A) → length l < n → drop n l ≡ []
drop_all zero l h = absurd (omega (arith, h))
drop_all (suc n) [] h = refl
drop_all (suc n) (a ∷ l) h = drop_all n l (omega (arith, h))

-- The bytes of the chunks, one after the other.
pub join : (Text → List ℕ) → List Chunk → List ℕ
join decode [] = []
join decode (m ∷ l) = decode m.data_b64 ++ join decode l

-- The chunks are numbered from `seq` up to the total, and only the last is marked so.
pub Numbered : ℕ → ℕ → List Chunk → Type 0
Numbered seq total [] = seq ≡ total
Numbered seq total (m ∷ l) =
    (m.seq ≡ seq)
    × ((m.total ≡ total) × ((m.final ≡ leb total (suc seq)) × Numbered (suc seq) total l))

-- What arrives of a file.
pub record Arrives (decode : Text → List ℕ) (file : List ℕ) (seq total : ℕ) (l : List Chunk)
    : Type 0 where
  pub bytes : join decode l ≡ file
  pub numbered : Numbered seq total l

no_chunk : (c : ℕ) (l : List ℕ) → 0 < c → 0 ≡ chunks c (length l) → l ≡ []
no_chunk c [] h e = refl
no_chunk c (a ∷ l) h e = absurd (omega (arith, e, chunks-step c (suc (length l)) h (omega arith)))

some_left : (c k : ℕ) (l : List ℕ) → 0 < c → suc k ≡ chunks c (length l) → 0 < length l
some_left c k [] h e = absurd (omega (arith, e, chunks-zero c h))
some_left c k (a ∷ l) h e = omega arith

module _ (base64_encode : List ℕ → Text) (decode : Text → List ℕ)
    (decoded : (l : List ℕ) → decode (base64_encode l) ≡ l) (cfg : Config)
    (gate path upload_id : Text) where
  -- A chunk before what is left.
  more :
      (total seq : ℕ) (bytes : List ℕ) (l : List Chunk)
      → Arrives decode (drop (chunk_size base64_encode cfg) bytes) (suc seq) total l
      → Arrives decode bytes seq total (
          chunk_message base64_encode cfg gate path upload_id total seq
            (take (chunk_size base64_encode cfg) bytes)
          ∷ l)
  unfolding join Numbered chunk_message
  more total seq bytes l a =
      let c = chunk_size base64_encode cfg in
      record {
        bytes =
            ap (λ x. x ++ join decode l) (decoded (take c bytes))
            ∙ ap (λ y. take c bytes ++ y) a.bytes
            ∙ take-drop c bytes;
        numbered = (refl, (refl, (ap (leb total) (omega arith), a.numbered)));
      }

  positive : (k : Config) → 0 < chunk_size base64_encode k
  positive k = omega arith

  send_chunks-Arrives :
      (total k seq : ℕ) (bytes : List ℕ)
      → 0 < chunk_size base64_encode cfg
      → seq + k ≡ total
      → k ≡ chunks (chunk_size base64_encode cfg) (length bytes)
      → Arrives decode bytes seq total (
          send_chunks base64_encode
            (chunk_message base64_encode cfg gate path upload_id total)
            (chunk_size base64_encode cfg)
            k
            seq
            bytes)
  unfolding send_chunks join Numbered chunk_message
  send_chunks-Arrives total zero seq bytes h t e = record {
    bytes = sym (no_chunk (chunk_size base64_encode cfg) bytes h e);
    numbered = omega (arith, t);
  }
  send_chunks-Arrives total (suc k) seq bytes h t e =
      let c = chunk_size base64_encode cfg in
      let full : 0 < length bytes = some_left c k bytes h e in
      let left : k ≡ chunks c (length (drop c bytes)) =
        omega
          (arith, e, chunks-step c (length bytes) h full, ap (chunks c) (length-drop c bytes)) in
      elim (Bool-cases (ltb (length bytes) c)) [
        | inl l ↦
            let gone = drop_all c bytes (ground (arith, l)) in
            let none_left : k ≡ 0 = left ∙ ap (λ b. chunks c (length b)) gone ∙ chunks-zero c h in
            rw (take_nonempty c bytes h full, l)
              (more total seq bytes []
                (record { bytes = sym gone; numbered = omega (arith, t, none_left) }))
        | inr l ↦
            rw (take_nonempty c bytes h full, l)
              (more total seq bytes _
                (send_chunks-Arrives total k (suc seq) (drop c bytes) h (omega (arith, t)) left))
      ]

  -- The chunks of a recording, decoded and joined in the order of their messages, are the bytes of
  -- its file; they are numbered from 0 up to the total that each carries, and only the last is marked
  -- as final. The file is open, uploads are enabled, and the decoding undoes the encoding.
  pub upload_recording-Arrives :
      (bytes : List ℕ)
      → cfg.upload_recordings ≡ true
      → Arrives decode bytes 0
          (chunks (chunk_size base64_encode cfg) (length bytes))
          (upload_recording base64_encode cfg gate path upload_id (some bytes))
  unfolding upload_recording send_file join Numbered
  upload_recording-Arrives [] u = rw u (record {
    bytes = refl;
    numbered = sym (chunks-zero (chunk_size base64_encode cfg) (positive cfg));
  })
  upload_recording-Arrives (b ∷ bytes) u =
      let total = chunks (chunk_size base64_encode cfg) (length (b ∷ bytes)) in
      rw u (send_chunks-Arrives total total 0 (b ∷ bytes) (positive cfg) (omega arith) refl)
