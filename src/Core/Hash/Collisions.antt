-- ===== src/Core/Hash/Collisions.antt =====
-- Membership in the lists of hashed messages.
use potash.Common.{◌⊎◌, inl, inr, List, [], ◌∷◌, ◌++◌, Bytes}
use potash.Core.Hash.{Hasher, In, CollisionFree}

pub In-append_left : (x : Bytes) (ps qs : List Bytes) → In x ps → In x (ps ++ qs)
In-append_left x [] qs h = absurd h
In-append_left x (p ∷ ps) qs (inl e) = inl e
In-append_left x (p ∷ ps) qs (inr h) = inr (In-append_left x ps qs h)

pub In-append_right : (x : Bytes) (ps qs : List Bytes) → In x qs → In x (ps ++ qs)
In-append_right x [] qs h = h
In-append_right x (p ∷ ps) qs h = inr (In-append_right x ps qs h)

pub In-append : (x : Bytes) (ps qs : List Bytes) → In x (ps ++ qs) → In x ps ⊎ In x qs
In-append x [] qs h = inr h
In-append x (p ∷ ps) qs (inl e) = inl (inl e)
In-append x (p ∷ ps) qs (inr h) = elim (In-append x ps qs h) [
  | inl left ↦ inl (inr left)
  | inr right ↦ inr right
]

-- No collision in a list, none in a list of some of its messages.
pub CollisionFree-sub :
    (h : Hasher) (ps qs : List Bytes)
    → ((x : Bytes) → In x ps → In x qs)
    → CollisionFree h qs
    → CollisionFree h ps
CollisionFree-sub h ps qs sub free x y hx hy e = free x y (sub x hx) (sub y hy) e

-- Two lists joined, each shortened at its front.
pub CollisionFree-shorter :
    (h : Hasher) (front rest front' rest' : List Bytes)
    → CollisionFree h ((front ++ rest) ++ (front' ++ rest'))
    → CollisionFree h (rest ++ rest')
CollisionFree-shorter h front rest front' rest' =
    CollisionFree-sub h (rest ++ rest') ((front ++ rest) ++ (front' ++ rest')) λ x m.
      elim (In-append x rest rest' m) [
        | inl a ↦
            In-append_left x (front ++ rest) (front' ++ rest') (In-append_right x front rest a)
        | inr b ↦
            In-append_right x (front ++ rest) (front' ++ rest') (In-append_right x front' rest' b)
      ]
