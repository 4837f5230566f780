-- ===== src/Crafting/Wire.antt =====
-- The bytes that are written for an event, and what is read back from them.
use zanarkand.Prelude.{
  ℕ, ◌*◌, ◌-◌, ◌^◌, ◌<◌, ◌≡◌, refl, sym, ap, ◌∙◌, List, [], ◌∷◌, ◌++◌, length, All, arith, ltb-true,
  ltb-false, length-append,
}
use zanarkand.Prelude.Int.{ℤ, pos, negsuc}
use zanarkand.Prelude.Bytes.{Bytes, le, le_bytes, le-le_bytes}
use zanarkand.Crafting.EventPlay.{
  EventPlayHeader, CraftState, signed, words, read_event_header, read_craft_state,
}

-- The bits of an int32.
abbrev pub unsigned : ℤ → ℕ
unsigned (pos n) = n
unsigned (negsuc n) = 2 ^ 32 - 1 - n

abbrev pub Fits32 : ℤ → Type 0
Fits32 (pos n) = n < 2 ^ 31
Fits32 (negsuc n) = n < 2 ^ 31

signed-unsigned : (z : ℤ) → Fits32 z → signed (unsigned z) ≡ z
signed-unsigned (pos n) h = rw (ltb-true n (2 ^ 31) h) refl
signed-unsigned (negsuc n) h =
    rw (ltb-false (2 ^ 32 - 1 - n) (2 ^ 31) (omega arith)) (ap negsuc (omega arith))

unsigned_fits : (z : ℤ) → Fits32 z → unsigned z < 2 ^ 32
unsigned_fits (pos n) h = omega arith
unsigned_fits (negsuc n) h = omega arith

signed-le : (z : ℤ) → Fits32 z → signed (le (le_bytes 4 (unsigned z))) ≡ z
signed-le z h = ap signed (le-le_bytes 4 (unsigned z) (unsigned_fits z h)) ∙ signed-unsigned z h

abbrev pub encode_words : List ℕ → Bytes
encode_words [] = []
encode_words (n ∷ ns) = le_bytes 4 n ++ encode_words ns

pub words-encode :
    (ns : List ℕ) → All (λ (n : ℕ). n < 2 ^ 32) ns → words (length ns) (encode_words ns) ≡ ns
words-encode [] h = refl
words-encode (n ∷ ns) h = λ i. le-le_bytes 4 n h.0 i ∷ words-encode ns h.1 i

pub length-encode_words : (ns : List ℕ) → length (encode_words ns) ≡ 4 * length ns
length-encode_words [] = refl
length-encode_words (n ∷ ns) = omega (arith, length-encode_words ns)

unfoldable pub encode_event_header : EventPlayHeader → Bytes
encode_event_header h =
    le_bytes 8 h.actor_id
    ++ (le_bytes 4 h.event_id
        ++ (le_bytes 2 h.scene
            ++ (le_bytes 2 h.pad1
                ++ (le_bytes 4 h.flags
                    ++ (le_bytes 4 h.p1
                        ++ (le_bytes 1 h.param_count ++ (h.pad2 ++ le_bytes 4 h.p2)))))))

pub record EventHeaderFits (h : EventPlayHeader) : Type 0 where
  pub actor_fits : h.actor_id < 2 ^ 64
  pub event_fits : h.event_id < 2 ^ 32
  pub scene_fits : h.scene < 2 ^ 16
  pub pad1_fits : h.pad1 < 2 ^ 16
  pub flags_fits : h.flags < 2 ^ 32
  pub p1_fits : h.p1 < 2 ^ 32
  pub count_fits : h.param_count < 2 ^ 8
  pub pad2_fits : length h.pad2 ≡ 3
  pub p2_fits : h.p2 < 2 ^ 32

three : (p : Bytes) → length p ≡ 3 → (a b c : ℕ) × (p ≡ a ∷ b ∷ c ∷ [])
three (a ∷ b ∷ c ∷ []) h = (a, b, c, refl)
three [] h = absurd (omega arith)
three (a ∷ []) h = absurd (omega arith)
three (a ∷ b ∷ []) h = absurd (omega arith)
three (a ∷ b ∷ c ∷ d ∷ p) h = absurd (omega arith)

-- With the padding's bytes apart.
header_at : EventPlayHeader → ℕ → ℕ → ℕ → EventPlayHeader
header_at h a b c = record h { pad2 = a ∷ b ∷ c ∷ [] }

read-encode_at :
    (h : EventPlayHeader) (a b c : ℕ)
    → EventHeaderFits h
    → read_event_header (encode_event_header (header_at h a b c)) ≡ header_at h a b c
unfolding encode_event_header header_at
read-encode_at h a b c f = λ i. record {
  actor_id = le-le_bytes 8 h.actor_id f.actor_fits i;
  event_id = le-le_bytes 4 h.event_id f.event_fits i;
  scene = le-le_bytes 2 h.scene f.scene_fits i;
  pad1 = le-le_bytes 2 h.pad1 f.pad1_fits i;
  flags = le-le_bytes 4 h.flags f.flags_fits i;
  p1 = le-le_bytes 4 h.p1 f.p1_fits i;
  param_count = le-le_bytes 1 h.param_count f.count_fits i;
  pad2 = a ∷ b ∷ c ∷ [];
  p2 = le-le_bytes 4 h.p2 f.p2_fits i;
}

pub read_event_header-encode :
    (h : EventPlayHeader) → EventHeaderFits h → read_event_header (encode_event_header h) ≡ h
unfolding header_at
read_event_header-encode h f =
    let (a, b, c, e) = three h.pad2 f.pad2_fits in
    let same : header_at h a b c ≡ h = λ i. record h { pad2 = sym e i } in
    ap (λ (k : EventPlayHeader). read_event_header (encode_event_header k)) (sym same)
    ∙ read-encode_at h a b c f
    ∙ same

pub length-encode_event_header :
    (h : EventPlayHeader) → EventHeaderFits h → length (encode_event_header h) ≡ 32
unfolding encode_event_header
length-encode_event_header h f = omega (arith, length-append h.pad2 (le_bytes 4 h.p2), f.pad2_fits)

unfoldable pub encode_craft_state : CraftState → Bytes
encode_craft_state s =
    le_bytes 4 s.u1
    ++ (le_bytes 4 s.u3
        ++ (le_bytes 4 s.u4
            ++ (le_bytes 4 s.action_id
                ++ (le_bytes 4 s.u2
                    ++ (le_bytes 4 s.step
                        ++ (le_bytes 4 s.progress
                            ++ (le_bytes 4 (unsigned s.progress_diff)
                                ++ (le_bytes 4 s.quality
                                    ++ (le_bytes 4 (unsigned s.quality_diff)
                                        ++ (le_bytes 4 s.hq_chance
                                            ++ (le_bytes 4 s.durability
                                                ++ (le_bytes 4 (unsigned s.durability_diff)
                                                    ++ (le_bytes 4 s.current_condition
                                                        ++ (le_bytes 4 s.previous_condition
                                                            ++ encode_words s.u6))))))))))))))

pub record CraftStateFits (s : CraftState) : Type 0 where
  pub u1_fits : s.u1 < 2 ^ 32
  pub u3_fits : s.u3 < 2 ^ 32
  pub u4_fits : s.u4 < 2 ^ 32
  pub action_fits : s.action_id < 2 ^ 32
  pub u2_fits : s.u2 < 2 ^ 32
  pub step_fits : s.step < 2 ^ 32
  pub progress_fits : s.progress < 2 ^ 32
  pub progress_diff_fits : Fits32 s.progress_diff
  pub quality_fits : s.quality < 2 ^ 32
  pub quality_diff_fits : Fits32 s.quality_diff
  pub hq_chance_fits : s.hq_chance < 2 ^ 32
  pub durability_fits : s.durability < 2 ^ 32
  pub durability_diff_fits : Fits32 s.durability_diff
  pub current_fits : s.current_condition < 2 ^ 32
  pub previous_fits : s.previous_condition < 2 ^ 32
  pub u6_fits : All (λ (n : ℕ). n < 2 ^ 32) s.u6
  pub u6_length : length s.u6 ≡ 17

pub read_craft_state-encode :
    (s : CraftState) → CraftStateFits s → read_craft_state (encode_craft_state s) ≡ s
unfolding encode_craft_state
read_craft_state-encode s f = λ i. record {
  u1 = le-le_bytes 4 s.u1 f.u1_fits i;
  u3 = le-le_bytes 4 s.u3 f.u3_fits i;
  u4 = le-le_bytes 4 s.u4 f.u4_fits i;
  action_id = le-le_bytes 4 s.action_id f.action_fits i;
  u2 = le-le_bytes 4 s.u2 f.u2_fits i;
  step = le-le_bytes 4 s.step f.step_fits i;
  progress = le-le_bytes 4 s.progress f.progress_fits i;
  progress_diff = signed-le s.progress_diff f.progress_diff_fits i;
  quality = le-le_bytes 4 s.quality f.quality_fits i;
  quality_diff = signed-le s.quality_diff f.quality_diff_fits i;
  hq_chance = le-le_bytes 4 s.hq_chance f.hq_chance_fits i;
  durability = le-le_bytes 4 s.durability f.durability_fits i;
  durability_diff = signed-le s.durability_diff f.durability_diff_fits i;
  current_condition = le-le_bytes 4 s.current_condition f.current_fits i;
  previous_condition = le-le_bytes 4 s.previous_condition f.previous_fits i;
  u6 =
      (ap (λ (k : ℕ). words k (encode_words s.u6)) (sym f.u6_length) ∙ words-encode s.u6 f.u6_fits)
        i;
}

pub length-encode_craft_state :
    (s : CraftState) → CraftStateFits s → length (encode_craft_state s) ≡ 128
unfolding encode_craft_state
length-encode_craft_state s f = omega (arith, length-encode_words s.u6, f.u6_length)
