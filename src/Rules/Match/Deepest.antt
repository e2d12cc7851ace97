-- ===== src/Rules/Match/Deepest.antt =====
-- Which config matchConfig chooses.
use rootline.Base.{
  String, ◌≡◌, ◌≢◌, refl, Option, none, some, List, [], ◌∷◌, ◌++◌, All, true, false, arith, ap, sym,
  Bool-cases, inl, inr, subst,
}
use rootline.Base.Glob.{glob}
use rootline.Base.Sort.{sort}
use rootline.Base.Text.{str_le}
use rootline.Value.{Value, Fields, null, str, bool, int, float, time, seq, mapping, other, get}
use rootline.Rules.Contract.Declarations.{keys_of}
use rootline.Rules.Match.{
  ConfigMatch, unmatched, malformed, found, config_at, match_component, match_components,
  match_config,
}

-- The first of the patterns that matches the component.
pub record IsFirst (patterns : List String) (component pattern : String) : Type 0 where
  pub earlier : List String
  pub later : List String
  pub order : patterns ≡ earlier ++ (pattern ∷ later)
  pub none_earlier : All (λ q. glob q component ≡ false) earlier
  pub matches : glob pattern component ≡ true

-- The first pattern of a component such that no pattern matches a component below.
pub record IsDeepest (patterns components : List String) (pattern : String) : Type 0 where
  pub above : List String
  pub component : String
  pub below : List String
  pub path : components ≡ above ++ (component ∷ below)
  pub none_below : All (λ c. All (λ q. glob q c ≡ false) patterns) below
  pub first : IsFirst patterns component pattern

-- A match is of the pattern chosen, and its config is a map or the match is an error.
abbrev pub Chosen : Fields → (String → Type 0) → Type 0 → ConfigMatch → Type 0
Chosen configs IsChosen nothing unmatched = nothing
Chosen configs IsChosen nothing (malformed pattern) =
    IsChosen pattern × ((config : Fields) → get pattern configs ≢ some (mapping config))
Chosen configs IsChosen nothing (found pattern config) =
    IsChosen pattern × (get pattern configs ≡ some (mapping config))

lift :
    (configs : Fields) (P Q : String → Type 0) (M N : Type 0)
    → ((p : String) → P p → Q p)
    → (M → N)
    → (r : ConfigMatch) → Chosen configs P M r
    → Chosen configs Q N r
lift configs P Q M N f g unmatched h = g h
lift configs P Q M N f g (malformed p) h = (f p h.0, h.1)
lift configs P Q M N f g (found p config) h = (f p h.0, h.1)

config_at-Chosen :
    (configs : Fields) (P : String → Type 0) (nothing : Type 0) (pattern : String)
    (o : Option Value)
    → get pattern configs ≡ o
    → P pattern
    → Chosen configs P nothing (config_at pattern o)
config_at-Chosen configs P nothing pattern (some (mapping config)) e h = (h, e)
config_at-Chosen configs P nothing pattern none e h = (h, λ c q. ground (arith, e, q))
config_at-Chosen configs P nothing pattern (some null) e h = (h, λ c q. ground (arith, e, q))
config_at-Chosen configs P nothing pattern (some (str s)) e h = (h, λ c q. ground (arith, e, q))
config_at-Chosen configs P nothing pattern (some (bool b)) e h = (h, λ c q. ground (arith, e, q))
config_at-Chosen configs P nothing pattern (some (int n)) e h = (h, λ c q. ground (arith, e, q))
config_at-Chosen configs P nothing pattern (some (float s)) e h = (h, λ c q. ground (arith, e, q))
config_at-Chosen configs P nothing pattern (some (time s)) e h = (h, λ c q. ground (arith, e, q))
config_at-Chosen configs P nothing pattern (some (seq vs)) e h = (h, λ c q. ground (arith, e, q))
config_at-Chosen configs P nothing pattern (some (other k s)) e h = (h, λ c q. ground (arith, e, q))

match_component-Chosen :
    (configs : Fields) (patterns : List String) (component : String)
    → Chosen configs
        (IsFirst patterns component)
        (All (λ q. glob q component ≡ false) patterns)
        (match_component configs patterns component)
unfolding match_component
match_component-Chosen configs [] component = tt
match_component-Chosen configs (pattern ∷ patterns) component =
    elim (Bool-cases (glob pattern component)) [
      | inl e ↦
          let here : IsFirst (pattern ∷ patterns) component pattern = record {
            earlier = [];
            later = patterns;
            order = refl;
            none_earlier = tt;
            matches = e;
          } in
          let same : match_component configs (pattern ∷ patterns) component
              ≡ config_at pattern (get pattern configs) =
            rw e refl in
          subst
            (Chosen configs (IsFirst (pattern ∷ patterns) component)
              (All (λ q. glob q component ≡ false) (pattern ∷ patterns)))
            (sym same)
            (config_at-Chosen configs (IsFirst (pattern ∷ patterns) component)
              (All (λ q. glob q component ≡ false) (pattern ∷ patterns)) pattern
              (get pattern configs) refl here)
      | inr e ↦
          let same : match_component configs (pattern ∷ patterns) component
              ≡ match_component configs patterns component =
            rw e refl in
          subst
            (Chosen configs (IsFirst (pattern ∷ patterns) component)
              (All (λ q. glob q component ≡ false) (pattern ∷ patterns)))
            (sym same)
            (lift configs (IsFirst patterns component) (IsFirst (pattern ∷ patterns) component)
              (All (λ q. glob q component ≡ false) patterns)
              (All (λ q. glob q component ≡ false) (pattern ∷ patterns))
              (λ p f. record {
                earlier = pattern ∷ f.earlier;
                later = f.later;
                order = ap (λ l. pattern ∷ l) f.order;
                none_earlier = (e, f.none_earlier);
                matches = f.matches;
              })
              (λ m. (e, m)) (match_component configs patterns component)
              (match_component-Chosen configs patterns component))
    ]

abbrev NoMatch : List String → List String → Type 0
NoMatch patterns components = All (λ c. All (λ q. glob q c ≡ false) patterns) components

-- Where nothing below matches, the first pattern of the component is the deepest.
at_component :
    (configs : Fields) (patterns : List String) (component : String) (deeper : List String)
    → NoMatch patterns deeper
    → Chosen configs
        (IsDeepest patterns (component ∷ deeper))
        (NoMatch patterns (component ∷ deeper))
        (match_component configs patterns component)
at_component configs patterns component deeper none_below =
    lift configs (IsFirst patterns component) (IsDeepest patterns (component ∷ deeper))
      (All (λ q. glob q component ≡ false) patterns) (NoMatch patterns (component ∷ deeper))
      (λ p f. record {
        above = [];
        component = component;
        below = deeper;
        path = refl;
        none_below = none_below;
        first = f;
      })
      (λ m. (m, none_below)) (match_component configs patterns component)
      (match_component-Chosen configs patterns component)

further :
    (patterns : List String) (component : String) (deeper : List String) (p : String)
    → IsDeepest patterns deeper p
    → IsDeepest patterns (component ∷ deeper) p
further patterns component deeper p d = record {
  above = component ∷ d.above;
  component = d.component;
  below = d.below;
  path = ap (λ l. component ∷ l) d.path;
  none_below = d.none_below;
  first = d.first;
}

abbrev choose : Fields → List String → String → ConfigMatch → ConfigMatch
choose configs patterns component unmatched = match_component configs patterns component
choose configs patterns component (malformed p) = malformed p
choose configs patterns component (found p config) = found p config

choose-Chosen :
    (configs : Fields) (patterns : List String) (component : String) (deeper : List String)
    (r : ConfigMatch)
    → Chosen configs (IsDeepest patterns deeper) (NoMatch patterns deeper) r
    → Chosen configs
        (IsDeepest patterns (component ∷ deeper))
        (NoMatch patterns (component ∷ deeper))
        (choose configs patterns component r)
choose-Chosen configs patterns component deeper unmatched h =
    at_component configs patterns component deeper h
choose-Chosen configs patterns component deeper (malformed p) h =
    (further patterns component deeper p h.0, h.1)
choose-Chosen configs patterns component deeper (found p config) h =
    (further patterns component deeper p h.0, h.1)

match_components-Chosen :
    (configs : Fields) (patterns components : List String)
    → Chosen configs
        (IsDeepest patterns components)
        (NoMatch patterns components)
        (match_components configs patterns components)
unfolding match_components
match_components-Chosen configs patterns [] = tt
match_components-Chosen configs patterns (component ∷ deeper) =
    choose-Chosen configs patterns component deeper (match_components configs patterns deeper)
      (match_components-Chosen configs patterns deeper)

-- matchConfig chooses the first of the sorted patterns that matches the deepest component that any
-- matches, with the map at the pattern; it fails there where that is no map; and it finds nothing just
-- where no pattern matches a component.
pub match_config-Chosen :
    (configs : Fields) (components : List String)
    → Chosen configs
        (IsDeepest (sort str_le (keys_of configs)) components)
        (All (λ c. All (λ q. glob q c ≡ false) (sort str_le (keys_of configs))) components)
        (match_config configs components)
unfolding match_config
match_config-Chosen configs components =
    match_components-Chosen configs (sort str_le (keys_of configs)) components
