-- ===== src/Config/Sweep/Order.antt =====
-- The nested loops of `BuildSweepPlan`: their entries come in lexicographic order, and they are all
-- the combinations.
use udp_measure.Prelude.{
  Bool, false, ◌&&◌, ◌||◌, List, [], ◌∷◌, ◌++◌, All, All-append, ◌≡◌, ◌⊎◌, inl, inr, refl, sym, ◌∙◌,
}
use udp_measure.Prelude.Int.{ℤ, ◌<ℤ◌, ◌==ℤ◌}
use udp_measure.Protocol.Types.{Direction, Family}
use udp_measure.Config.Ports.Sorting.{StrictlyAscending}
use udp_measure.Config.Sweep.{SweepPlan, for_sizes, for_directions, for_ports, for_families}

-- Family first, then port, then direction, then size.
abbrev pub Before : SweepPlan → SweepPlan → Type 0
Before a b =
    (a.family <ℤ b.family)
    ⊎ ((a.family ≡ b.family)
        × ((a.port <ℤ b.port)
            ⊎ ((a.port ≡ b.port)
                × ((a.direction <ℤ b.direction)
                    ⊎ ((a.direction ≡ b.direction) × (a.payload_size <ℤ b.payload_size))))))

abbrev pub Ordered : List SweepPlan → Type 0
Ordered [] = Unit
Ordered (a ∷ plans) = All (Before a) plans × Ordered plans

abbrev pub same_plan : SweepPlan → SweepPlan → Bool
same_plan a b =
    a.family ==ℤ b.family
    && (a.port ==ℤ b.port && (a.direction ==ℤ b.direction && a.payload_size ==ℤ b.payload_size))

abbrev pub plan_member : SweepPlan → List SweepPlan → Bool
plan_member q [] = false
plan_member q (a ∷ plans) = same_plan q a || plan_member q plans

pub All-map {ℓ} :
    {A : Type ℓ} (P Q : A → Type 0) (xs : List A) → ((a : A) → P a → Q a) → All P xs → All Q xs
All-map P Q [] f h = tt
All-map P Q (x ∷ xs) f h = (f x h.0, All-map P Q xs f h.1)

Ordered-append :
    (xs ys : List SweepPlan)
    → Ordered xs
    → Ordered ys
    → All (λ x. All (Before x) ys) xs
    → Ordered (xs ++ ys)
Ordered-append [] ys hx hy cross = hy
Ordered-append (x ∷ xs) ys hx hy cross =
    (All-append (Before x) xs ys hx.0 cross.0, Ordered-append xs ys hx.1 hy cross.1)

-- Every entry of the first list comes before every entry of the second, if the entries of the one
-- have P, those of the other Q, and P comes before Q.
cross-All :
    (P Q : SweepPlan → Type 0) (xs ys : List SweepPlan)
    → ((a b : SweepPlan) → P a → Q b → Before a b)
    → All P xs
    → All Q ys
    → All (λ x. All (Before x) ys) xs
cross-All P Q xs ys before hx hy =
    All-map P (λ x. All (Before x) ys) xs (λ a ha. All-map Q (Before a) ys (λ b. before a b ha) hy)
      hx

module _ (f : Family) where
  module _ (p : ℤ) where
    abbrev AtDirection : Direction → SweepPlan → Type 0
    AtDirection d a = (a.family ≡ f) × (a.port ≡ p) × (a.direction ≡ d)

    abbrev PastDirection : Direction → SweepPlan → Type 0
    PastDirection d a = (a.family ≡ f) × (a.port ≡ p) × (d <ℤ a.direction)

    for_sizes_at : (d : Direction) (sizes : List ℤ) → All (AtDirection d) (for_sizes f p d sizes)
    for_sizes_at d [] = tt
    for_sizes_at d (s ∷ sizes) = ((refl, refl, refl), for_sizes_at d sizes)

    for_sizes_past :
        (d : Direction) (s : ℤ) (sizes : List ℤ)
        → All (λ x. s <ℤ x) sizes
        → All
            (Before (record { family = f; port = p; direction = d; payload_size = s }))
            (for_sizes f p d sizes)
    for_sizes_past d s [] h = tt
    for_sizes_past d s (x ∷ sizes) h =
        (inr (refl, inr (refl, inr (refl, h.0))), for_sizes_past d s sizes h.1)

    for_sizes-Ordered :
        (d : Direction) (sizes : List ℤ) → StrictlyAscending sizes → Ordered (for_sizes f p d sizes)
    for_sizes-Ordered d [] h = tt
    for_sizes-Ordered d (s ∷ sizes) h =
        (for_sizes_past d s sizes h.0, for_sizes-Ordered d sizes h.1)

    for_directions_past :
        (r : Direction) (ds : List Direction) (sizes : List ℤ)
        → All (λ d. r <ℤ d) ds
        → All (PastDirection r) (for_directions f p ds sizes)
    for_directions_past r [] sizes h = tt
    for_directions_past r (d ∷ ds) sizes h =
        All-append (PastDirection r) (for_sizes f p d sizes) (for_directions f p ds sizes)
          (All-map (AtDirection d) (PastDirection r) (for_sizes f p d sizes)
            (λ a (ef, ep, ed). (ef, ep, rw ed h.0)) (for_sizes_at d sizes))
          (for_directions_past r ds sizes h.1)

    for_directions-Ordered :
        (ds : List Direction) (sizes : List ℤ)
        → StrictlyAscending ds
        → StrictlyAscending sizes
        → Ordered (for_directions f p ds sizes)
    for_directions-Ordered [] sizes hd hs = tt
    for_directions-Ordered (d ∷ ds) sizes hd hs =
        Ordered-append (for_sizes f p d sizes) (for_directions f p ds sizes)
          (for_sizes-Ordered d sizes hs) (for_directions-Ordered ds sizes hd.1 hs)
          (cross-All (AtDirection d) (PastDirection d) (for_sizes f p d sizes)
            (for_directions f p ds sizes)
            (λ a b (af, ap', ad) (bf, bp, bd).
              inr (af ∙ sym bf, inr (ap' ∙ sym bp, inl (rw ad bd))))
            (for_sizes_at d sizes) (for_directions_past d ds sizes hd.0))

  abbrev AtPort : ℤ → SweepPlan → Type 0
  AtPort p a = (a.family ≡ f) × (a.port ≡ p)

  abbrev PastPort : ℤ → SweepPlan → Type 0
  PastPort p a = (a.family ≡ f) × (p <ℤ a.port)

  for_directions_at :
      (p : ℤ) (ds : List Direction) (sizes : List ℤ) → All (AtPort p) (for_directions f p ds sizes)
  for_directions_at p [] sizes = tt
  for_directions_at p (d ∷ ds) sizes =
      All-append (AtPort p) (for_sizes f p d sizes) (for_directions f p ds sizes)
        (All-map (AtDirection p d) (AtPort p) (for_sizes f p d sizes) (λ a (ef, ep, ed). (ef, ep))
          (for_sizes_at p d sizes))
        (for_directions_at p ds sizes)

  for_ports_past :
      (r : ℤ) (ps : List ℤ) (ds : List Direction) (sizes : List ℤ)
      → All (λ p. r <ℤ p) ps
      → All (PastPort r) (for_ports f ps ds sizes)
  for_ports_past r [] ds sizes h = tt
  for_ports_past r (p ∷ ps) ds sizes h =
      All-append (PastPort r) (for_directions f p ds sizes) (for_ports f ps ds sizes)
        (All-map (AtPort p) (PastPort r) (for_directions f p ds sizes)
          (λ a (ef, ep). (ef, rw ep h.0)) (for_directions_at p ds sizes))
        (for_ports_past r ps ds sizes h.1)

  for_ports-Ordered :
      (ps : List ℤ) (ds : List Direction) (sizes : List ℤ)
      → StrictlyAscending ps
      → StrictlyAscending ds
      → StrictlyAscending sizes
      → Ordered (for_ports f ps ds sizes)
  for_ports-Ordered [] ds sizes hp hd hs = tt
  for_ports-Ordered (p ∷ ps) ds sizes hp hd hs =
      Ordered-append (for_directions f p ds sizes) (for_ports f ps ds sizes)
        (for_directions-Ordered p ds sizes hd hs) (for_ports-Ordered ps ds sizes hp.1 hd hs)
        (cross-All (AtPort p) (PastPort p) (for_directions f p ds sizes) (for_ports f ps ds sizes)
          (λ a b (af, at_p) (bf, past_p). inr (af ∙ sym bf, inl (rw at_p past_p)))
          (for_directions_at p ds sizes) (for_ports_past p ps ds sizes hp.0))

  for_ports_at :
      (ps : List ℤ) (ds : List Direction) (sizes : List ℤ)
      → All (λ a. a.family ≡ f) (for_ports f ps ds sizes)
  for_ports_at [] ds sizes = tt
  for_ports_at (p ∷ ps) ds sizes =
      All-append (λ a. a.family ≡ f) (for_directions f p ds sizes) (for_ports f ps ds sizes)
        (All-map (AtPort p) (λ a. a.family ≡ f) (for_directions f p ds sizes) (λ a h. h.0)
          (for_directions_at p ds sizes))
        (for_ports_at ps ds sizes)

for_families_past :
    (r : Family) (fs : List Family) (ps : List ℤ) (ds : List Direction) (sizes : List ℤ)
    → All (λ f. r <ℤ f) fs
    → All (λ a. r <ℤ a.family) (for_families fs ps ds sizes)
unfolding for_families
for_families_past r [] ps ds sizes h = tt
for_families_past r (f ∷ fs) ps ds sizes h =
    All-append (λ a. r <ℤ a.family) (for_ports f ps ds sizes) (for_families fs ps ds sizes)
      (All-map (λ a. a.family ≡ f) (λ a. r <ℤ a.family) (for_ports f ps ds sizes) (λ a e. rw e h.0)
        (for_ports_at f ps ds sizes))
      (for_families_past r fs ps ds sizes h.1)

-- Loops over strictly ascending lists yield their entries in strict lexicographic order, so that
-- none occurs twice.
pub for_families-Ordered :
    (fs : List Family) (ps : List ℤ) (ds : List Direction) (sizes : List ℤ)
    → StrictlyAscending fs
    → StrictlyAscending ps
    → StrictlyAscending ds
    → StrictlyAscending sizes
    → Ordered (for_families fs ps ds sizes)
unfolding for_families
for_families-Ordered [] ps ds sizes hf hp hd hs = tt
for_families-Ordered (f ∷ fs) ps ds sizes hf hp hd hs =
    Ordered-append (for_ports f ps ds sizes) (for_families fs ps ds sizes)
      (for_ports-Ordered f ps ds sizes hp hd hs) (for_families-Ordered fs ps ds sizes hf.1 hp hd hs)
      (cross-All (λ a. a.family ≡ f) (λ a. f <ℤ a.family) (for_ports f ps ds sizes)
        (for_families fs ps ds sizes) (λ a b af past_f. inl (rw af past_f))
        (for_ports_at f ps ds sizes) (for_families_past f fs ps ds sizes hf.0))
