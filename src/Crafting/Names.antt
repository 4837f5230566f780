-- ===== src/Crafting/Names.antt =====
-- craftstate.go, actionmap.go and conditionmap.go: the names of actions and conditions.
use Prim.Native.String.{String}
use zanarkand.Prelude.{
  ℕ, ◌^◌, ◌<◌, ◌≡◌, refl, inl, inr, Bool, true, false, ◌&&◌, ◌||◌, Option, none, some, List, [],
  ◌∷◌, ◌++◌, ◌==◌, if◌then◌else◌, Bool-cases, arith,
}
use zanarkand.Prelude.Int.{ℤ, pos}
use zanarkand.Prelude.Bytes.{Bytes}
use zanarkand.Prelude.Format.{codes}
use zanarkand.Prelude.Decimal.{atoi, itoa, atoi-itoa}

-- A map from numbers to names, with the numbers of one name that follow each other taken together.
abbrev pub NameMap : Type 0
NameMap = List (String × List ℕ)

abbrev first_actions : NameMap
first_actions =
    ("Failed", 5518 ∷ [])
    ∷ ("Inner Quiet", 252 ∷ 253 ∷ 254 ∷ 255 ∷ 256 ∷ 257 ∷ 258 ∷ 259 ∷ [])
    ∷ ("Great Strides", 260 ∷ 261 ∷ 262 ∷ 263 ∷ 264 ∷ 265 ∷ 266 ∷ 267 ∷ [])
    ∷ ("Name of the Elements", 4615 ∷ 4616 ∷ 4617 ∷ 4618 ∷ 4619 ∷ 4620 ∷ 4621 ∷ 4622 ∷ [])
    ∷ ("Manipulation", 4574 ∷ 4575 ∷ 4576 ∷ 4577 ∷ 4578 ∷ 4579 ∷ 4580 ∷ 4581 ∷ [])
    ∷ ("Waste Not", 4631 ∷ 4632 ∷ 4633 ∷ 4634 ∷ 4635 ∷ 4636 ∷ 4637 ∷ 4638 ∷ [])
    ∷ ("Waste Not II", 4639 ∷ 4640 ∷ 4641 ∷ 4642 ∷ 4643 ∷ 4644 ∷ 19002 ∷ 19003 ∷ [])
    ∷ ("Innovation", 19004 ∷ 19005 ∷ 19006 ∷ 19007 ∷ 19008 ∷ 19009 ∷ 19010 ∷ 19011 ∷ [])
    ∷ ("Veneration", 19297 ∷ 19298 ∷ 19299 ∷ 19300 ∷ 19301 ∷ 19302 ∷ 19303 ∷ 19304 ∷ [])
    ∷ ("Final Appraisal", 19012 ∷ 19013 ∷ 19014 ∷ 19015 ∷ 19016 ∷ 19017 ∷ 19018 ∷ 19019 ∷ [])
    ∷ (
      "Delicate Synthesis",
      100323 ∷ 100324 ∷ 100325 ∷ 100326 ∷ 100327 ∷ 100328 ∷ 100329 ∷ 100330 ∷ [],
    )
    ∷ ("Basic Touch", 100002 ∷ 100016 ∷ 100031 ∷ 100076 ∷ 100046 ∷ 100061 ∷ 100091 ∷ 100106 ∷ [])
    ∷ ("Standard Touch", 100004 ∷ 100018 ∷ 100034 ∷ 100078 ∷ 100048 ∷ 100064 ∷ 100093 ∷ 100109 ∷ [])
    ∷ ("Prudent Touch", 100227 ∷ 100228 ∷ 100229 ∷ 100230 ∷ 100231 ∷ 100232 ∷ 100233 ∷ 100234 ∷ [])
    ∷ ("Hasty Touch", 100355 ∷ 100356 ∷ 100357 ∷ 100358 ∷ 100359 ∷ 100360 ∷ 100361 ∷ 100362 ∷ [])
    ∷ ("Patient Touch", 100219 ∷ 100220 ∷ 100221 ∷ 100222 ∷ 100223 ∷ 100224 ∷ 100225 ∷ 100226 ∷ [])
    ∷ ("Focused Touch", 100243 ∷ 100244 ∷ 100245 ∷ 100246 ∷ 100247 ∷ 100248 ∷ 100249 ∷ 100250 ∷ [])
    ∷ ("Precise Touch", 100128 ∷ 100129 ∷ 100130 ∷ 100131 ∷ 100132 ∷ 100133 ∷ 100134 ∷ 100135 ∷ [])
    ∷ []

abbrev later_actions : NameMap
later_actions =
    (
      "Preparatory Touch",
      100299 ∷ 100300 ∷ 100301 ∷ 100302 ∷ 100303 ∷ 100304 ∷ 100305 ∷ 100306 ∷ [],
    )
    ∷ ("Reflect", 100387 ∷ 100388 ∷ 100389 ∷ 100390 ∷ 100391 ∷ 100392 ∷ 100393 ∷ 100394 ∷ [])
    ∷ ("Trained Eye", 100283 ∷ 100284 ∷ 100285 ∷ 100286 ∷ 100287 ∷ 100288 ∷ 100289 ∷ 100290 ∷ [])
    ∷ (
      "Byregot's Blessing",
      100339 ∷ 100340 ∷ 100341 ∷ 100342 ∷ 100343 ∷ 100344 ∷ 100345 ∷ 100346 ∷ [],
    )
    ∷ (
      "Basic Synthesis",
      100001 ∷ 100015 ∷ 100030 ∷ 100075 ∷ 100045 ∷ 100060 ∷ 100090 ∷ 100105 ∷ [],
    )
    ∷ (
      "Careful Synthesis",
      100203 ∷ 100204 ∷ 100205 ∷ 100206 ∷ 100207 ∷ 100208 ∷ 100209 ∷ 100210 ∷ [],
    )
    ∷ (
      "Rapid Synthesis",
      100363 ∷ 100364 ∷ 100365 ∷ 100366 ∷ 100367 ∷ 100368 ∷ 100369 ∷ 100370 ∷ [],
    )
    ∷ (
      "Focused Synthesis",
      100235 ∷ 100236 ∷ 100237 ∷ 100238 ∷ 100239 ∷ 100240 ∷ 100241 ∷ 100242 ∷ [],
    )
    ∷ (
      "Intensive Synthesis",
      100315 ∷ 100316 ∷ 100317 ∷ 100318 ∷ 100319 ∷ 100320 ∷ 100321 ∷ 100322 ∷ [],
    )
    ∷ ("Groundwork", 100403 ∷ 100404 ∷ 100405 ∷ 100406 ∷ 100407 ∷ 100408 ∷ 100409 ∷ 100410 ∷ [])
    ∷ ("Muscle Memory", 100379 ∷ 100380 ∷ 100381 ∷ 100382 ∷ 100383 ∷ 100384 ∷ 100385 ∷ 100386 ∷ [])
    ∷ (
      "Brand of the Elements",
      100331 ∷ 100332 ∷ 100333 ∷ 100334 ∷ 100335 ∷ 100336 ∷ 100337 ∷ 100338 ∷ [],
    )
    ∷ ("Observe", 100010 ∷ 100023 ∷ 100040 ∷ 100053 ∷ 100070 ∷ 100082 ∷ 100099 ∷ 100113 ∷ [])
    ∷ ("Masters Mend", 100003 ∷ 100017 ∷ 100032 ∷ 100047 ∷ 100062 ∷ 100077 ∷ 100092 ∷ 100107 ∷ [])
    ∷ (
      "Tricks of the Trade",
      100371 ∷ 100372 ∷ 100373 ∷ 100374 ∷ 100375 ∷ 100376 ∷ 100377 ∷ 100378 ∷ [],
    )
    ∷ []

abbrev pub action_map : NameMap
action_map = first_actions ++ later_actions

abbrev pub condition_map : NameMap
condition_map =
    ("Failed", 0 ∷ [])
    ∷ ("Normal", 1 ∷ [])
    ∷ ("Good", 2 ∷ [])
    ∷ ("Excellent", 3 ∷ [])
    ∷ ("Poor", 4 ∷ [])
    ∷ ("Centered", 5 ∷ [])
    ∷ ("Sturdy", 6 ∷ [])
    ∷ ("Pliant", 7 ∷ [])
    ∷ []

abbrev pub has : ℕ → List ℕ → Bool
has id [] = false
has id (k ∷ ks) = k == id || has id ks

-- The value of a Go map, which is the empty text for a key that it does not have.
abbrev pub name_in : NameMap → ℕ → Bytes
name_in [] id = []
name_in ((name, ids) ∷ m) id = let rest = name_in m id in if has id ids then codes name else rest

abbrev or_number : Bytes → ℕ → Bytes
or_number [] id = itoa id
or_number name id = name

-- `actionName`
unfoldable pub action_name : ℕ → Bytes
action_name id = or_number (name_in action_map id) id

-- `conditionName`
unfoldable pub condition_name : ℕ → Bytes
condition_name id = or_number (name_in condition_map id) id

-- A text of `m` that is shown for `id`, or its number.
pub data Shown (m : NameMap) (id : ℕ) : Bytes → Type 0 where
  named : (c : ℕ) (cs : Bytes) → name_in m id ≡ c ∷ cs → atoi (c ∷ cs) ≡ none → Shown m id (c ∷ cs)
  numbered : (text : Bytes) → name_in m id ≡ [] → atoi text ≡ some (pos id) → Shown m id text

-- A text that reads as no number.
abbrev is_wordy : Bytes → Bool
is_wordy p = elim (atoi p) [ none ↦ true | some n ↦ false ]

abbrev all_wordy : NameMap → Bool
all_wordy [] = true
all_wordy ((name, ids) ∷ m) = is_wordy (codes name) && all_wordy m

wordy : (p : Bytes) → is_wordy p ≡ true → atoi p ≡ none
wordy p h = of (atoi p) h
  where
    of : (o : Option ℤ) → elim o [ none ↦ true | some n ↦ false ] ≡ true → o ≡ none
    of none e = refl
    of (some n) e = cc

both : (a b : Bool) → (a && b) ≡ true → (a ≡ true) × (b ≡ true)
both true b h = (refl, h)
both false b h = cc

name_in-wordy : (m : NameMap) (id : ℕ) → all_wordy m ≡ true → atoi (name_in m id) ≡ none
unfolding atoi
name_in-wordy [] id h = refl
name_in-wordy ((name, ids) ∷ m) id h =
    let (first, rest) = both (is_wordy (codes name)) (all_wordy m) h in
    elim (Bool-cases (has id ids)) [
      | inl here ↦ rw here (wordy (codes name) first)
      | inr there ↦ rw there (name_in-wordy m id rest)
    ]

shown :
    (m : NameMap) (id : ℕ) (p : Bytes)
    → id < 2 ^ 32
    → name_in m id ≡ p
    → atoi p ≡ none
    → Shown m id (or_number p id)
shown m id [] h e w = numbered (itoa id) e (atoi-itoa id (omega arith))
shown m id (c ∷ cs) h e w = named c cs e w

actions_wordy : all_wordy action_map ≡ true
unfolding atoi
actions_wordy = refl

conditions_wordy : all_wordy condition_map ≡ true
unfolding atoi
conditions_wordy = refl

-- For an action or a condition of 32 bits: what is shown is its name in the table, which then is not
-- empty and reads as no number, or, where the table has none, a text that reads as its number.
action_name_lem :
    (id : ℕ)
    → id < 2 ^ 32
    → Shown action_map id (action_name id) × Shown condition_map id (condition_name id)
unfolding action_name condition_name
action_name_lem id h = (
  shown action_map id (name_in action_map id) h refl (name_in-wordy action_map id actions_wordy),
  shown condition_map id (name_in condition_map id) h refl
      (name_in-wordy condition_map id conditions_wordy),
)
