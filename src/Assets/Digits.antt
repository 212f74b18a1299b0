-- ===== src/Assets/Digits.antt =====
-- src/clap/extensions/state_transaction/validate.rs: the two ways to hash a file agree, and give what the
-- test of a saved hash accepts.
use nam_plug.Prelude.{
  ℕ, zero, suc, ◌+◌, ◌-◌, ◌*◌, ◌/◌, ◌%◌, ◌≤◌, ◌<◌, ◌≡◌, refl, sym, ap, ◌∙◌, true, false, Bool-cases,
  Option, none, some, List, [], ◌∷◌, ◌++◌, append-nil, append_assoc, length, length-append, take,
  ltb, leb, All, inl, inr, arith,
}
use nam_plug.Assets.{Bytes, Disk, Files, done, ensure, ok_or, >>=-inv, ensure-true}
use nam_plug.Assets.Digest.{
  max_file_hash_size, hex_digit, hex, is_ascii_hexdigit, all_hexdigits, is_valid_sha256_hex,
  hash_loop, read_to_end, compute_bytes_hash, compute_file_hash, read_ir_file_bytes,
}
use nam_plug.Assets.{
  hash_metadata_failed, hash_target_not_regular_file, hash_file_too_large, hash_open_failed,
}

hex_digit-hexdigit : (n : ℕ) → n < 16 → is_ascii_hexdigit (hex_digit n) ≡ true
unfolding hex_digit
hex_digit-hexdigit n h = ground arith

hex-digits : (bs : Bytes) → All (λ b. b < 256) bs → all_hexdigits (hex bs) ≡ true
unfolding hex
hex-digits [] h = refl
hex-digits (b ∷ bs) (h, k) =
    rw (hex_digit-hexdigit (b / 16) (omega arith), hex_digit-hexdigit (b % 16) (omega arith))
      (hex-digits bs k)

length-hex : (bs : Bytes) → length (hex bs) ≡ 2 * length bs
unfolding hex
length-hex [] = omega arith
length-hex (b ∷ bs) = omega (arith, length-hex bs)

pub length-take : {A : Type 0} (n : ℕ) (xs : List A) → length xs ≤ n → take n xs ≡ xs
length-take zero [] h = refl
length-take zero (x ∷ xs) h = absurd (omega arith)
length-take (suc n) [] h = refl
length-take (suc n) (x ∷ xs) h = ap (λ l. x ∷ l) (length-take n xs (omega arith))

pub take-short : {A : Type 0} (n : ℕ) (xs : List A) → n ≤ length xs → length (take n xs) ≡ n
take-short zero xs h = refl
take-short (suc n) [] h = absurd (omega arith)
take-short (suc n) (x ∷ xs) h = omega (arith, take-short n xs (omega arith))

hash_loop-read_to_end :
    (total n : ℕ) (seen : Bytes) (reads : List (Option Bytes)) (bs : Bytes)
    → total + n ≡ max_file_hash_size + 1
    → read_to_end n reads ≡ done bs
    → total + length bs ≤ max_file_hash_size
    → hash_loop total seen reads ≡ done (seen ++ bs)
unfolding hash_loop read_to_end
hash_loop-read_to_end total zero seen reads bs e h l = absurd (omega arith)
hash_loop-read_to_end total (suc n) seen [] bs e h l =
    let k : [] ≡ bs = cc h in rw (← k) (ap done (sym (append-nil seen)))
hash_loop-read_to_end total (suc n) seen (none ∷ reads) bs e h l = cc h
hash_loop-read_to_end total (suc n) seen (some [] ∷ reads) bs e h l =
    let k : [] ≡ bs = cc h in rw (← k) (ap done (sym (append-nil seen)))
hash_loop-read_to_end total (suc n) seen (some (c ∷ cs) ∷ reads) bs e h l =
    let (r, p, q) =
      >>=-inv (read_to_end (suc n - length (c ∷ cs)) reads)
        (λ rest. done (take (suc n) (c ∷ cs) ++ rest)) bs h in
    let k : take (suc n) (c ∷ cs) ++ r ≡ bs = cc q in
    let m = length-append (take (suc n) (c ∷ cs)) r in
    let m' = ap length k in
    elim (Bool-cases (leb (length (c ∷ cs)) n)) [
      | inr f ↦
          let t = take-short (suc n) (c ∷ cs) (ground (arith, f)) in
          absurd (omega (arith, e, l, m, m', t))
      | inl t ↦
          let u : length (c ∷ cs) ≤ n = ground (arith, t) in
          let v = length-take (suc n) (c ∷ cs) (omega (arith, u)) in
          let v' = ap length v in
          let w : ltb max_file_hash_size (total + length (c ∷ cs)) ≡ false =
            ground (arith, l, m, m', v') in
          let ih =
            hash_loop-read_to_end (total + length (c ∷ cs)) (suc n - length (c ∷ cs))
              (seen ++ (c ∷ cs)) reads r (omega (arith, u, e)) p (omega (arith, l, m, m', v')) in
          rw w (
            ih
            ∙ ap done
                (append_assoc seen (c ∷ cs) r ∙ ap (λ z. seen ++ z) (ap (λ z. z ++ r) (sym v) ∙ k)))
    ]

module _ (K : Disk) where
  pub compute_bytes_hash-valid :
      ((b : Bytes) → (length (K.sha256 b) ≡ 32) × All (λ x. x < 256) (K.sha256 b))
      → (bytes : Bytes) → is_valid_sha256_hex (compute_bytes_hash K bytes) ≡ true
  unfolding compute_bytes_hash is_valid_sha256_hex
  compute_bytes_hash-valid sha bytes =
      let (n, r) = sha bytes in
      rw (hex-digits (K.sha256 bytes) r) (ground (arith, length-hex (K.sha256 bytes), n))

  -- A file that can be read as bytes, as an impulse response is, has the hash of these bytes: reading it
  -- in pieces, with the limit checked at every piece, gives the same as reading it whole. The hash is
  -- one that a later restore accepts as well-formed, given that SHA-256 has 32 bytes.
  pub compute_file_hash-bytes :
      (F : Files K) (path : K.FilePath) (bytes : Bytes)
      → ((b : Bytes) → (length (K.sha256 b) ≡ 32) × All (λ x. x < 256) (K.sha256 b))
      → read_ir_file_bytes K F path ≡ done bytes
      → (compute_file_hash K F path ≡ done (compute_bytes_hash K bytes))
        × (is_valid_sha256_hex (compute_bytes_hash K bytes) ≡ true)
        × (length bytes ≤ max_file_hash_size)
  unfolding compute_file_hash read_ir_file_bytes compute_bytes_hash is_valid_sha256_hex
  compute_file_hash-bytes F path bytes sha h =
      let (st, a, h1) = >>=-inv (ok_or (F.metadata path) hash_metadata_failed) _ bytes h in
      let (u, b, h2) = >>=-inv (ensure st.is_file hash_target_not_regular_file) _ bytes h1 in
      let (v, c, h3) =
        >>=-inv (ensure (leb st.len max_file_hash_size) hash_file_too_large) _ bytes h2 in
      let (reads, d, h4) = >>=-inv (ok_or (F.open_file path) hash_open_failed) _ bytes h3 in
      let (bs, e, h5) = >>=-inv (read_to_end (max_file_hash_size + 1) reads) _ bytes h4 in
      let (w, f, h6) =
        >>=-inv (ensure (leb (length bs) max_file_hash_size) hash_file_too_large) _ bytes h5 in
      let k : bs ≡ bytes = cc h6 in
      let t = ensure-true (leb (length bs) max_file_hash_size) hash_file_too_large w f in
      let l : length bs ≤ max_file_hash_size = ground (arith, t) in
      let loop =
        hash_loop-read_to_end 0 (max_file_hash_size + 1) [] reads bs (omega arith) e
          (omega (arith, l)) in
      (
        rw (a, b, c, d, loop, k) refl,
        compute_bytes_hash-valid sha bytes,
        omega (arith, l, ap length k),
      )
