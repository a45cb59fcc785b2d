-- ===== src/Commit/Leb128/Blobs.antt =====
-- Lemmas on bytes with their length in front, packages/coln-store/src/commit/leb128.rs.
use coln.Prelude.{
  subst, ap, ◌∙◌, sym, [], append-nil, ℕ, ◌+◌, ◌^◌, ◌<◌, ◌≤◌, ◌≡◌, String, List, ◌++◌, append_assoc,
  arith,
}
use coln.Prelude.Lists.{length, length-append}
use coln.Commit.Codec.{Parsed, ok}
use coln.Commit.Codec.Reading.{At, At-start, At-next, At-fits, read_slice-At}
use coln.Commit.Leb128.{write_len, read_len, write_len_prefixed_bytes, read_len_prefixed_bytes}
use coln.Commit.Leb128.Format.{WritesUnsigned}
use coln.Commit.Leb128.RoundTrip.{read_len-unsigned}

module _ (unsigned : ℕ → List ℕ) where
  -- What `write_len_prefixed_bytes` puts behind its buffer.
  abbrev pub blob : List ℕ → List ℕ
  blob part = unsigned (length part) ++ part

  pub write_len_prefixed_bytes-blob :
      (buf part : List ℕ) → write_len_prefixed_bytes unsigned buf part ≡ buf ++ blob part
  unfolding write_len_prefixed_bytes write_len
  write_len_prefixed_bytes-blob buf part = simp append_assoc

  -- A buffer of two blobs.
  abbrev pub put_two : List ℕ → List ℕ → List ℕ
  put_two a b = write_len_prefixed_bytes unsigned (write_len_prefixed_bytes unsigned [] a) b

  pub put_two-blob : (a b : List ℕ) → put_two a b ≡ blob a ++ blob b
  put_two-blob a b =
      write_len_prefixed_bytes-blob (write_len_prefixed_bytes unsigned [] a) b
      ∙ ap (λ buf. buf ++ blob b) (write_len_prefixed_bytes-blob [] a)

  pub length-second : (out a b : List ℕ) → out ≡ put_two a b → length b ≤ length out
  length-second out a b whole = omega (
    arith,
    ap length (whole ∙ put_two-blob a b),
    length-append (blob a) (blob b),
    length-append (unsigned (length b)) b,
  )

  module _ (writes : WritesUnsigned unsigned) (bytes : List ℕ) (small : length bytes < 2 ^ 64) where
    pub read-blob :
        (at : ℕ) (part rest : List ℕ) (ctx : String)
        → At bytes at (blob part ++ rest)
        → read_len_prefixed_bytes bytes at ctx ≡ ok (part, at + length (blob part))
    unfolding read_len_prefixed_bytes
    read-blob at part rest ctx here =
        let prefix = unsigned (length part) in
        let here' : At bytes at (prefix ++ (part ++ rest)) = rw append_assoc at here in
        let behind = At-next bytes at prefix (part ++ rest) here' in
        let total = At-fits bytes (at + length prefix) part rest behind in
        rw
          (
            read_len-unsigned unsigned writes bytes (part ++ rest) at (length part) ctx small
                (omega (arith, total)) here',
            read_slice-At bytes (at + length prefix) part rest behind ctx small,
          )
          (ground (arith, length-append prefix part))

    pub read_number :
        (at value : ℕ) (rest : List ℕ) (ctx : String)
        → value < 2 ^ 64
        → At bytes at (unsigned value ++ rest)
        → read_len bytes at ctx ≡ ok (value, at + length (unsigned value))
    read_number at value rest ctx fits here =
        read_len-unsigned unsigned writes bytes rest at value ctx small fits here

  module _ (writes : WritesUnsigned unsigned) (out a b : List ℕ) (whole : out ≡ put_two a b)
      (small : length out < 2 ^ 64) (ctx : String) where
    pub read_first : read_len_prefixed_bytes out 0 ctx ≡ ok (a, 0 + length (blob a))
    read_first =
        read-blob writes out small 0 a (blob b) ctx
          (subst (At out 0) (whole ∙ put_two-blob a b) (At-start out))

    abbrev second : ℕ → Parsed (List ℕ × ℕ)
    second n = ok (b, n)

    pub read_second : read_len_prefixed_bytes out (0 + length (blob a)) ctx ≡ ok (b, length out)
    read_second =
        let here : At out 0 (blob a ++ blob b) =
          subst (At out 0) (whole ∙ put_two-blob a b) (At-start out) in
        let behind : At out (0 + length (blob a)) (blob b ++ []) =
          subst (At out (0 + length (blob a))) (sym (append-nil (blob b)))
            (At-next out 0 (blob a) (blob b) here) in
        let all : (0 + length (blob a)) + length (blob b) ≡ length out =
          omega (arith, At-fits out 0 (blob a) (blob b) here) in
        read-blob writes out small (0 + length (blob a)) b [] ctx behind
        ∙ ap (λ (n : ℕ). second n) all
