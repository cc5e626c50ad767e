-- ===== src/Core/Preimage/Decode.antt =====
-- A reader of preimages, which the program does not have: it shows that an encoding determines the
-- preimage it was made from, fields and kind.
use potash.Common.{ℕ, ◌≡◌, refl, ap, ◌∙◌, List, [], ◌∷◌, Option, none, some, arith}
use potash.Common.{Bytes, length, take, drop, take-append_exact, drop-append_exact, length-append}
use potash.Common.{bytes_eq, from_le_bytes, from_le_bytes-le_bytes, length-le_bytes, ◌==◌}
use potash.Common.{if◌then◌else◌, append-nil}
use potash.Common.Int.{ℤ, twos, of_twos, twos-lt, of_twos-twos}
use potash.Core.Preimage.{
  Preimage, asset, genesis_head, leaf, step_head, real_leaf, padding, node, spi, handoff, prf,
  AssetPreimage, PrfPreimage, GenesisHeadPreimage, LeafPreimage, StepHeadPreimage, NodePreimage,
  SpiPreimage, HandoffPreimage, tag_asset, tag_head, tag_leaf, tag_mtl0, tag_pad, tag_mtn1, tag_spi,
  tag_hoff, tag_prf, concat, fields, encode, IsWellFormed,
}

-- The front of a string cut at the given widths, and what is behind.
split : List ℕ → Bytes → List Bytes
split [] bs = bs ∷ []
split (w ∷ ws) bs = take w bs ∷ split ws (drop w bs)

-- The first fields have the given widths.
abbrev Fits : List ℕ → List Bytes → Type 0
Fits [] fs = Unit
Fits (w ∷ ws) [] = ⊥
Fits (w ∷ ws) (f ∷ fs) = (length f ≡ w) × Fits ws fs

abbrev parts : List ℕ → List Bytes → List Bytes
parts [] fs = concat fs ∷ []
parts (w ∷ ws) [] = []
parts (w ∷ ws) (f ∷ fs) = f ∷ parts ws fs

split-concat : (ws : List ℕ) (fs : List Bytes) → Fits ws fs → split ws (concat fs) ≡ parts ws fs
unfolding split
split-concat [] fs h = refl
split-concat (w ∷ ws) [] h = absurd h
split-concat (w ∷ ws) (f ∷ fs) h =
    rw (take-append_exact f (concat fs) w h.0, drop-append_exact f (concat fs) w h.0)
      (ap (λ (t : List Bytes). f ∷ t) (split-concat ws fs h.1))

signed : Bytes → ℤ
signed bs = of_twos (from_le_bytes bs)

byte : Bytes → ℕ
byte [] = 0
byte (b ∷ bs) = b

of_asset : List Bytes → Option Preimage
of_asset (j ∷ r ∷ n ∷ t ∷ []) = some (asset (record { jurisdiction = j; registry = r; tenure = t }))
of_asset _ = none

of_genesis : List Bytes → Option Preimage
of_genesis (c ∷ v ∷ rest ∷ []) =
    some (genesis_head (record { asset_commitment = c; schema_version = from_le_bytes v }))
of_genesis _ = none

of_leaf : List Bytes → Option Preimage
of_leaf (c ∷ n ∷ p ∷ a ∷ k ∷ g ∷ e ∷ i ∷ rest ∷ []) = some (
    leaf (record {
      asset_commitment = c;
      seq = from_le_bytes n;
      payload_digest = p;
      assessment_digest = a;
      qp_key = k;
      category = byte g;
      effective_at = signed e;
      change_identified_at = signed i;
    }))
of_leaf _ = none

of_step : List Bytes → Option Preimage
of_step (h ∷ l ∷ rest ∷ []) = some (step_head (record { prev_head = h; leaf = l }))
of_step _ = none

of_node : List Bytes → Option Preimage
of_node (l ∷ r ∷ rest ∷ []) = some (node (record { left = l; right = r }))
of_node _ = none

of_spi : List Bytes → Option Preimage
of_spi (l ∷ s ∷ a ∷ p ∷ d ∷ rest ∷ []) = some (
    spi (record {
      leaf = l;
      submission_id = s;
      accepted_epoch = from_le_bytes a;
      promised_epoch = from_le_bytes p;
      max_merge_delay = byte d;
    }))
of_spi _ = none

of_handoff : List Bytes → Option Preimage
of_handoff (e ∷ h ∷ r ∷ rest ∷ []) =
    some (handoff (record { epoch = from_le_bytes e; height = byte h; root = r }))
of_handoff _ = none

of_prf : List Bytes → Option Preimage
of_prf (k ∷ n ∷ x ∷ []) = some (prf (record { key = k; input = x }))
of_prf _ = none

-- The two head preimages share a tag, and their lengths tell them apart.
of_head : Bytes → Option Preimage
unfolding of_genesis of_step
of_head body =
    if length body == 34
    then of_genesis (split (32 ∷ 2 ∷ []) body)
    else of_step (split (32 ∷ 32 ∷ []) body)

of_body : Bytes → Bytes → Option Preimage
unfolding of_head of_asset of_leaf of_node of_spi of_handoff of_prf byte signed
of_body t body =
    if bytes_eq t tag_asset
    then of_asset (split (4 ∷ 8 ∷ 2 ∷ []) body)
    else if bytes_eq t tag_head
    then of_head body
    else if bytes_eq t tag_leaf
    then of_leaf (split (32 ∷ 8 ∷ 32 ∷ 32 ∷ 32 ∷ 1 ∷ 8 ∷ 8 ∷ []) body)
    else if bytes_eq t tag_mtl0
    then some (real_leaf body)
    else if bytes_eq t tag_pad
    then some (padding body)
    else if bytes_eq t tag_mtn1
    then of_node (split (32 ∷ 32 ∷ []) body)
    else if bytes_eq t tag_spi
    then of_spi (split (32 ∷ 16 ∷ 8 ∷ 8 ∷ 1 ∷ []) body)
    else if bytes_eq t tag_hoff
    then of_handoff (split (8 ∷ 1 ∷ 32 ∷ []) body)
    else if bytes_eq t tag_prf
    then of_prf (split (32 ∷ 2 ∷ []) body)
    else none

pub decode : Bytes → Option Preimage
unfolding of_body bytes_eq
decode bs = of_body (take 8 bs) (drop 8 bs)

-- Each kind is read back. `cut` is the work that they share.
cut :
    (ws : List ℕ) (p : Preimage)
    → Fits ws (fields p)
    → split ws (concat (fields p)) ≡ parts ws (fields p)
cut ws p h = split-concat ws (fields p) h

decode-encode_asset :
    (p : AssetPreimage) → IsWellFormed (asset p) → decode (encode (asset p)) ≡ some (asset p)
unfolding decode encode IsWellFormed
decode-encode_asset p h =
    ap of_asset (cut (4 ∷ 8 ∷ 2 ∷ []) (asset p) (omega (arith, length-le_bytes))) ∙ rw append-nil

decode-encode_genesis :
    (p : GenesisHeadPreimage)
    → IsWellFormed (genesis_head p)
    → decode (encode (genesis_head p)) ≡ some (genesis_head p)
unfolding decode encode IsWellFormed
decode-encode_genesis p h =
    let short : length (concat (fields (genesis_head p))) ≡ 34 =
      simp length-append (omega (arith, length-le_bytes, h)) in
    rw short (
      ap of_genesis (cut (32 ∷ 2 ∷ []) (genesis_head p) (omega (arith, length-le_bytes)))
      ∙ rw (from_le_bytes-le_bytes 2 p.schema_version (omega arith)))

decode-encode_step :
    (p : StepHeadPreimage)
    → IsWellFormed (step_head p)
    → decode (encode (step_head p)) ≡ some (step_head p)
unfolding decode encode IsWellFormed
decode-encode_step p h =
    let long : length (concat (fields (step_head p))) ≡ 64 =
      simp length-append (omega (arith, h)) in
    rw long (ap of_step (cut (32 ∷ 32 ∷ []) (step_head p) (omega arith)))

decode-encode_leaf :
    (p : LeafPreimage) → IsWellFormed (leaf p) → decode (encode (leaf p)) ≡ some (leaf p)
unfolding decode encode IsWellFormed
decode-encode_leaf p h =
    ap of_leaf
      (cut (32 ∷ 8 ∷ 32 ∷ 32 ∷ 32 ∷ 1 ∷ 8 ∷ 8 ∷ []) (leaf p) (omega (arith, length-le_bytes)))
    ∙ rw (
      from_le_bytes-le_bytes 8 p.seq (omega arith),
      from_le_bytes-le_bytes 8 (twos p.effective_at) (twos-lt p.effective_at h.5),
      from_le_bytes-le_bytes 8 (twos p.change_identified_at) (twos-lt p.change_identified_at h.6),
      of_twos-twos p.effective_at h.5,
      of_twos-twos p.change_identified_at h.6,
    )

decode-encode_node :
    (p : NodePreimage) → IsWellFormed (node p) → decode (encode (node p)) ≡ some (node p)
unfolding decode encode IsWellFormed
decode-encode_node p h = ap of_node (cut (32 ∷ 32 ∷ []) (node p) (omega arith))

decode-encode_spi :
    (p : SpiPreimage) → IsWellFormed (spi p) → decode (encode (spi p)) ≡ some (spi p)
unfolding decode encode IsWellFormed
decode-encode_spi p h =
    ap of_spi (cut (32 ∷ 16 ∷ 8 ∷ 8 ∷ 1 ∷ []) (spi p) (omega (arith, length-le_bytes)))
    ∙ rw (
      from_le_bytes-le_bytes 8 p.accepted_epoch (omega arith),
      from_le_bytes-le_bytes 8 p.promised_epoch (omega arith),
    )

decode-encode_handoff :
    (p : HandoffPreimage)
    → IsWellFormed (handoff p)
    → decode (encode (handoff p)) ≡ some (handoff p)
unfolding decode encode IsWellFormed
decode-encode_handoff p h =
    ap of_handoff (cut (8 ∷ 1 ∷ 32 ∷ []) (handoff p) (omega (arith, length-le_bytes)))
    ∙ rw (from_le_bytes-le_bytes 8 p.epoch (omega arith))

decode-encode_prf :
    (p : PrfPreimage) → IsWellFormed (prf p) → decode (encode (prf p)) ≡ some (prf p)
unfolding decode encode IsWellFormed
decode-encode_prf p h =
    ap of_prf (cut (32 ∷ 2 ∷ []) (prf p) (omega (arith, length-le_bytes))) ∙ rw append-nil

-- The encoding of a well-formed preimage determines it.
pub decode-encode : (p : Preimage) → IsWellFormed p → decode (encode p) ≡ some p
decode-encode (asset p) h = decode-encode_asset p h
decode-encode (genesis_head p) h = decode-encode_genesis p h
decode-encode (leaf p) h = decode-encode_leaf p h
decode-encode (step_head p) h = decode-encode_step p h
decode-encode (real_leaf d) h = unfold decode encode in rw append-nil
decode-encode (padding d) h = unfold decode encode in rw append-nil
decode-encode (node p) h = decode-encode_node p h
decode-encode (spi p) h = decode-encode_spi p h
decode-encode (handoff p) h = decode-encode_handoff p h
decode-encode (prf p) h = decode-encode_prf p h
