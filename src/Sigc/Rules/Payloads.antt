-- ===== src/Sigc/Rules/Payloads.antt =====
-- The patterns that `Builder.payload` stores, and the framings that it keeps out.
use Prim.Native.Nat.{bit_and}
use ngfw_policy.Prelude.{
  ℕ, if◌then◌else◌, zero, suc, ◌<◌, ◌≡◌, ◌≢◌, ◌⊎◌, refl, Bool, true, false, not, ◌&&◌, ◌||◌, List,
  [], ◌∷◌, eqb, length, All, All-snoc, arith, Bool-cases, inl, inr, contains, nat_eq, list_eq,
  triple_eq,
}
use ngfw_policy.Sigc.Builder.{Builder, PayloadRule, dropped}
use ngfw_policy.Sigc.Rules.{
  pins_framing, pins_any, pins_reserved_framing, reserved_framings, masked, any_set, add_payload,
  payload,
}

holds_below : (ℕ → Bool) → ℕ → Bool
holds_below p zero = true
holds_below p (suc n) = if p n then holds_below p n else false

holds_below_sound : (p : ℕ → Bool) {x : ℕ} (n : ℕ) → x < n → holds_below p n ≡ true → p x ≡ true
unfolding holds_below
holds_below_sound p zero below h = absurd (omega arith)
holds_below_sound p {x} (suc n) below h = ground (arith, holds_below_sound p {x = x} n)

abbrev keeps_whole : ℕ → Bool
keeps_whole x = eqb (bit_and x 255) x && eqb (bit_and x 0) 0

bit_and_table : holds_below keeps_whole 256 ≡ true
unfolding holds_below
bit_and_table = refl

bit_and_byte : (x : ℕ) → x < 256 → (bit_and x 255 ≡ x) × (bit_and x 0 ≡ 0)
bit_and_byte x h = ground (arith, holds_below_sound keeps_whole 256 h bit_and_table)

-- A mask byte that pins all bits or none, as the MATCH arguments of the sources do.
abbrev pub IsWholeByte : ℕ → Type 0
IsWholeByte m = (m ≡ 0) ⊎ (m ≡ 255)

abbrev pub IsByte : ℕ → Type 0
IsByte v = v < 256

-- Masking changes no pinned byte, so it cannot make a pattern pin a framing.
pins_framing-masked :
    (f : List (List ℕ)) (value mask : List ℕ)
    → All IsByte value
    → All IsWholeByte mask
    → pins_framing f (masked value mask) mask ≡ pins_framing f value mask
unfolding pins_framing masked
pins_framing-masked [] value mask hv hm = refl
pins_framing-masked (a ∷ f) [] mask hv hm = refl
pins_framing-masked (a ∷ f) (v ∷ value) [] hv hm = refl
pins_framing-masked (a ∷ f) (v ∷ value) (m ∷ mask) hv hm = elim hm.0 [
  | inl wild ↦ rw wild refl
  | inr whole ↦ rw (whole, (bit_and_byte v hv.0).0, pins_framing-masked f value mask hv.1 hm.1) refl
]

pins_any-masked :
    (fs : List (List (List ℕ))) (value mask : List ℕ)
    → All IsByte value
    → All IsWholeByte mask
    → pins_any fs (masked value mask) mask ≡ pins_any fs value mask
unfolding pins_any
pins_any-masked [] value mask hv hm = refl
pins_any-masked (f ∷ fs) value mask hv hm =
    rw (pins_framing-masked f value mask hv hm, pins_any-masked fs value mask hv hm)

length-masked :
    (value mask : List ℕ) → length value ≡ length mask → length (masked value mask) ≡ length mask
unfolding masked
length-masked [] mask h = h
length-masked (v ∷ value) [] h = omega arith
length-masked (v ∷ value) (m ∷ mask) h = omega (arith, length-masked value mask)

-- A stored pattern: four bytes under four mask bytes, one of them set, of an application that was
-- not dropped, and it does not pin a framing that the engine dissects itself.
pub record IsPattern (r : PayloadRule) : Type 0 where
  pub owned : r.app_id ≢ dropped
  pub four_values : length r.value ≡ 4
  pub four_masks : length r.mask ≡ 4
  pub pinned : any_set r.mask ≡ true
  pub unreserved : pins_reserved_framing r.value r.mask ≡ false

abbrev pub HasPatterns : Builder → Type 0
HasPatterns b = All IsPattern b.payloads

add_payload-HasPatterns :
    (value mask : List ℕ) (app_id tier confidence license_tier : ℕ) (b : Builder)
    → IsPattern (record {
      value = value;
      mask = mask;
      app_id = app_id;
      tier = tier;
      confidence = confidence;
      license = license_tier;
    })
    → HasPatterns b
    → HasPatterns (add_payload value mask app_id tier confidence license_tier b).1
unfolding add_payload
add_payload-HasPatterns value mask app_id tier confidence license_tier b ok h =
    elim (Bool-cases (contains (value, mask, app_id) b.seen_pay)) [
      | inl old ↦ rw old h
      | inr new ↦ rw new (All-snoc IsPattern b.payloads _ h ok)
    ]

masked-IsPattern :
    (value mask : List ℕ) (app_id tier confidence license_tier : ℕ)
    → All IsByte value
    → All IsWholeByte mask
    → eqb app_id dropped ≡ false
    → (not (eqb (length value) 4) || not (eqb (length mask) 4)) ≡ false
    → any_set mask ≡ true
    → pins_reserved_framing value mask ≡ false
    → IsPattern (record {
      value = masked value mask;
      mask = mask;
      app_id = app_id;
      tier = tier;
      confidence = confidence;
      license = license_tier;
    })
masked-IsPattern value mask app_id tier confidence license_tier hv hm owned four some_pinned free =
    record {
      owned = ground arith;
      four_values = ground (arith, length-masked value mask);
      four_masks = ground arith;
      pinned = some_pinned;
      unreserved =
          unfold pins_reserved_framing in
          rw (pins_any-masked reserved_framings value mask hv hm) free;
    }

-- Where the values are bytes and every mask byte pins all bits or none, `payload` keeps every
-- stored rule a pattern of four bytes, not all wild, of an application that was not dropped, which
-- pins no reserved framing.
pub payload-HasPatterns :
    (value mask : List ℕ) (app_id tier confidence license_tier : ℕ) (b : Builder)
    → All IsByte value
    → All IsWholeByte mask
    → HasPatterns b
    → HasPatterns (payload value mask app_id tier confidence license_tier b).1
unfolding payload
payload-HasPatterns value mask app_id tier confidence license_tier b hv hm h = ground (
  arith,
  add_payload-HasPatterns (masked value mask) mask app_id tier confidence license_tier b,
  masked-IsPattern value mask app_id tier confidence license_tier hv hm,
)
