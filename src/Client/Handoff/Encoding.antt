-- ===== src/Client/Handoff/Encoding.antt =====
-- The 137 bytes of a handoff, written and read back.
use potash.Common.{
  from_le_bytes-lt, All-take, ℕ, zero, suc, ◌+◌, ◌^◌, ◌≡◌, refl, sym, ap, ◌∙◌, arith, some, [], ◌∷◌,
  ◌++◌, Bytes, IsByte, IsU64, All, length, replicate, get_elem?, get_elem?-append_right,
  get_elem?-lt, take, drop, length-append, length-take, length-drop, le_bytes, from_le_bytes,
  length-le_bytes, from_le_bytes-le_bytes, le_bytes-from_le_bytes, array_at, array_at_lem,
  array_at-skip, array_at-head, puts_lem, joined, take-append-drop,
}
use potash.Common.Early.{go, go-injective}
use potash.Client.Handoff.{Handoff, handoff_len, parts, encode, decode, read_fields}

-- The widths that the field types fix.
pub record IsHandoff (h : Handoff) : Type 0 where
  pub epoch_fits : IsU64 h.epoch
  pub height_fits : IsByte h.height
  pub root_width : length h.root ≡ 32
  pub key_width : length h.batcher_key ≡ 32
  pub signature_width : length h.signature ≡ 64

length-parts : (h : Handoff) → IsHandoff h → length (joined (parts h)) ≡ 137
length-parts h w =
    simp (length-append, length-le_bytes)
      (omega (arith, w.root_width, w.key_width, w.signature_width))

-- The copies fill the buffer exactly.
pub encode-joined : (h : Handoff) → IsHandoff h → encode h ≡ joined (parts h)
unfolding encode
encode-joined h w =
    puts_lem [] (replicate handoff_len 0) 0 (parts h) refl (length-parts h w) (omega arith)

module _ (h : Handoff) (w : IsHandoff h) where
  epoch_width : length (le_bytes 8 h.epoch) ≡ 8
  epoch_width = length-le_bytes 8 h.epoch

  after_epoch :
      (a b a' b' : ℕ)
      → a' ≡ 9 + a
      → b' ≡ 9 + b
      → array_at (joined (parts h)) a' b'
        ≡ array_at (joined (h.root ∷ h.batcher_key ∷ h.signature ∷ [])) a b
  after_epoch a b a' b' ha hb =
      array_at-skip (le_bytes 8 h.epoch)
        (h.height ∷ joined (h.root ∷ h.batcher_key ∷ h.signature ∷ [])) 8 (1 + a) (1 + b) a' b'
        epoch_width (omega arith) (omega arith)
      ∙ array_at-skip (h.height ∷ []) (joined (h.root ∷ h.batcher_key ∷ h.signature ∷ [])) 1 a b
          (1 + a) (1 + b) refl refl refl

  epoch_at : array_at (joined (parts h)) 0 8 ≡ some (le_bytes 8 h.epoch)
  epoch_at = array_at-head (le_bytes 8 h.epoch) _ 8 epoch_width

  height_at : get_elem? (joined (parts h)) 8 ≡ some h.height
  height_at =
      get_elem?-append_right (le_bytes 8 h.epoch)
        (h.height ∷ joined (h.root ∷ h.batcher_key ∷ h.signature ∷ [])) 8 0
        (omega (arith, epoch_width))

  root_at : array_at (joined (parts h)) 9 41 ≡ some h.root
  root_at = after_epoch 0 32 9 41 refl refl ∙ array_at-head h.root _ 32 w.root_width

  key_at : array_at (joined (parts h)) 41 73 ≡ some h.batcher_key
  key_at =
      after_epoch 32 64 41 73 refl refl
      ∙ array_at-skip h.root _ 32 0 32 32 64 w.root_width refl refl
      ∙ array_at-head h.batcher_key _ 32 w.key_width

  signature_at : array_at (joined (parts h)) 73 137 ≡ some h.signature
  signature_at =
      after_epoch 64 128 73 137 refl refl
      ∙ array_at-skip h.root _ 32 32 96 64 128 w.root_width refl refl
      ∙ array_at-skip h.batcher_key _ 32 0 64 32 96 w.key_width refl refl
      ∙ array_at-head h.signature [] 64 w.signature_width

  -- A well-formed handoff reads back from its encoding.
  pub decode-encode : decode (encode h) ≡ go h
  unfolding decode read_fields
  decode-encode = rw (encode-joined h w) (
      ground (
        arith,
        length-parts h w,
        epoch_at,
        height_at,
        root_at,
        key_at,
        signature_at,
        from_le_bytes-le_bytes 8 h.epoch (omega (arith, w.epoch_fits)),
      ))

-- The fields that a string of 137 bytes holds.
abbrev fields_of : Bytes → ℕ → Handoff
fields_of bytes height = record {
  epoch = from_le_bytes (take 8 bytes);
  height = height;
  root = take 32 (drop 9 bytes);
  batcher_key = take 32 (drop 41 bytes);
  signature = take 64 (drop 73 bytes);
}

decode-fields_of :
    (bytes : Bytes) (height : ℕ)
    → length bytes ≡ 137
    → get_elem? bytes 8 ≡ some height
    → decode bytes ≡ go (fields_of bytes height)
unfolding decode read_fields
decode-fields_of bytes height h at = ground (
  arith,
  at,
  array_at_lem bytes 0 8 (omega arith) (omega arith),
  array_at_lem bytes 9 41 (omega arith) (omega arith),
  array_at_lem bytes 41 73 (omega arith) (omega arith),
  array_at_lem bytes 73 137 (omega arith) (omega arith),
)

byte_then :
    (bytes : Bytes) (n height : ℕ)
    → get_elem? bytes n ≡ some height
    → drop n bytes ≡ height ∷ drop (suc n) bytes
byte_then [] n height h = absurd (cc h)
byte_then (b ∷ bs) zero height h = grind (arith, h)
byte_then (b ∷ bs) (suc n) height h = byte_then bs n height h

drop-nil : (n : ℕ) → drop {A = ℕ} n [] ≡ []
drop-nil zero = refl
drop-nil (suc n) = refl

drop-all : (n : ℕ) (bytes : Bytes) → length bytes ≡ n → drop n bytes ≡ []
drop-all zero [] h = refl
drop-all (suc n) [] h = refl
drop-all zero (b ∷ bs) h = absurd (omega arith)
drop-all (suc n) (b ∷ bs) h = drop-all n bs (omega arith)

drop-drop : (m n : ℕ) (bytes : Bytes) → drop m (drop n bytes) ≡ drop (n + m) bytes
drop-drop m zero bytes = ap (λ (t : ℕ). drop t bytes) (omega arith)
drop-drop m (suc n) [] = drop-nil m ∙ sym (drop-nil (suc n + m))
drop-drop m (suc n) (b ∷ bs) =
    drop-drop m n bs ∙ ap (λ (t : ℕ). drop t (b ∷ bs)) {x = suc (n + m)} (omega arith)

-- A slice and what follows it.
slice :
    (n m k : ℕ) (bytes : Bytes) → n + m ≡ k → take m (drop n bytes) ++ drop k bytes ≡ drop n bytes
slice n m k bytes h =
    ap (λ (t : Bytes). take m (drop n bytes) ++ t)
      (ap (λ (t : ℕ). drop t bytes) (sym h) ∙ sym (drop-drop m n bytes))
    ∙ take-append-drop m (drop n bytes)

-- The fields of 137 bytes join to those bytes.
joined-fields_of :
    (bytes : Bytes) (height : ℕ)
    → length bytes ≡ 137
    → All IsByte bytes
    → get_elem? bytes 8 ≡ some height
    → joined (parts (fields_of bytes height)) ≡ bytes
joined-fields_of bytes height h all at =
    ap
      (λ (t : Bytes).
        t
        ++ (height
            ∷ joined (
                (fields_of bytes height).root
                ∷ (fields_of bytes height).batcher_key
                ∷ (fields_of bytes height).signature
                ∷ [])))
      epoch_back
    ∙ ap (λ (t : Bytes). take 8 bytes ++ (height ∷ t)) tail_9
    ∙ ap (λ (t : Bytes). take 8 bytes ++ t) (sym (byte_then bytes 8 height at))
    ∙ take-append-drop 8 bytes
  where
    epoch_back : le_bytes 8 (from_le_bytes (take 8 bytes)) ≡ take 8 bytes
    epoch_back =
        ap (λ (t : ℕ). le_bytes t (from_le_bytes (take 8 bytes)))
          (omega (arith, length-take 8 bytes))
        ∙ le_bytes-from_le_bytes (take 8 bytes) (All-take 8 bytes all)

    tail_73 : take 64 (drop 73 bytes) ++ [] ≡ drop 73 bytes
    tail_73 =
        ap (λ (t : Bytes). take 64 (drop 73 bytes) ++ t) (sym (drop-all 137 bytes h))
        ∙ slice 73 64 137 bytes refl

    tail_41 : take 32 (drop 41 bytes) ++ (take 64 (drop 73 bytes) ++ []) ≡ drop 41 bytes
    tail_41 = ap (λ (t : Bytes). take 32 (drop 41 bytes) ++ t) tail_73 ∙ slice 41 32 73 bytes refl

    tail_9 :
        take 32 (drop 9 bytes) ++ (take 32 (drop 41 bytes) ++ (take 64 (drop 73 bytes) ++ []))
        ≡ drop 9 bytes
    tail_9 = ap (λ (t : Bytes). take 32 (drop 9 bytes) ++ t) tail_41 ∙ slice 9 32 41 bytes refl

decode-length : (bytes : Bytes) (h : Handoff) → decode bytes ≡ go h → length bytes ≡ 137
unfolding decode
decode-length bytes h read = ground (arith, read)

All-get_elem? : (bytes : Bytes) (n b : ℕ) → All IsByte bytes → get_elem? bytes n ≡ some b → IsByte b
All-get_elem? [] n b h at = absurd (cc at)
All-get_elem? (x ∷ xs) zero b h at = grind (arith, at, h.0)
All-get_elem? (x ∷ xs) (suc n) b h at = All-get_elem? xs n b h.1 at

fields_of-IsHandoff :
    (bytes : Bytes) (height : ℕ)
    → length bytes ≡ 137
    → All IsByte bytes
    → get_elem? bytes 8 ≡ some height
    → IsHandoff (fields_of bytes height)
fields_of-IsHandoff bytes height long all at = record {
  epoch_fits = omega (
    arith,
    from_le_bytes-lt (take 8 bytes) (All-take 8 bytes all),
    ap (λ (t : ℕ). 256 ^ t) {x = length (take 8 bytes)} {y = 8}
        (omega (arith, length-take 8 bytes)),
  );
  height_fits = All-get_elem? bytes 8 height all at;
  root_width = omega (arith, length-take 32 (drop 9 bytes), length-drop 9 bytes);
  key_width = omega (arith, length-take 32 (drop 41 bytes), length-drop 41 bytes);
  signature_width = omega (arith, length-take 64 (drop 73 bytes), length-drop 73 bytes);
}

-- A string of bytes that is read as a handoff is the encoding of that handoff.
pub encode-decode :
    (bytes : Bytes) (h : Handoff) → All IsByte bytes → decode bytes ≡ go h → encode h ≡ bytes
encode-decode bytes h all read =
    let long = decode-length bytes h read in
    let (height, at) = get_elem?-lt bytes 8 (omega (arith, long)) in
    let e : fields_of bytes height ≡ h =
      go-injective (sym (decode-fields_of bytes height long at) ∙ read) in
    ap encode (sym e)
    ∙ encode-joined (fields_of bytes height) (fields_of-IsHandoff bytes height long all at)
    ∙ joined-fields_of bytes height long all at
