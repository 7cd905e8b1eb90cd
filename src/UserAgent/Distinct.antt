-- ===== src/UserAgent/Distinct.antt =====
-- Different user agents have different headers.
use conjure_rust_runtime.Prelude.{
  ℕ, ◌≡◌, refl, sym, ap, ◌∙◌, true, false, Option, none, some, List, [], ◌∷◌, ◌++◌, append_assoc,
  All, ◌==◌, if◌then◌else◌, arith, false≢true,
}
use conjure_rust_runtime.Config.{Text}
use conjure_rust_runtime.UserAgent.{
  Agent, UserAgent, slash, space, node_suffix, fmt_agent, fmt_node, fmt_agents, fmt,
}

-- The text before the first of a character, and the text from there.
abbrev before : ℕ → Text → Text
before c [] = []
before c (x ∷ xs) = if x == c then [] else x ∷ before c xs

abbrev from : ℕ → Text → Text
from c [] = []
from c (x ∷ xs) = if x == c then x ∷ xs else from c xs

abbrev pub Without : ℕ → Text → Type 0
Without c s = All (λ x. (x == c) ≡ false) s

-- The text is empty, or begins with the character.
abbrev Begins : ℕ → Text → Type 0
Begins c [] = Unit
Begins c (x ∷ xs) = (x == c) ≡ true

before-append : (c : ℕ) (s t : Text) → Without c s → Begins c t → before c (s ++ t) ≡ s
before-append c [] [] w b = refl
before-append c [] (x ∷ t) w b = rw (b) refl
before-append c (x ∷ s) t (e, w) b = rw (e) (ap (λ z. x ∷ z) (before-append c s t w b))

from-append : (c : ℕ) (s t : Text) → Without c s → Begins c t → from c (s ++ t) ≡ t
from-append c [] [] w b = refl
from-append c [] (x ∷ t) w b = rw (b) refl
from-append c (x ∷ s) t (e, w) b = rw (e) (from-append c s t w b)

split_eq :
    (c : ℕ) (s t u v : Text)
    → Without c s
    → Begins c t
    → Without c u
    → Begins c v
    → s ++ t ≡ u ++ v
    → (s ≡ u) × (t ≡ v)
split_eq c s t u v ws bt wu bv e = (
  sym (before-append c s t ws bt) ∙ ap (before c) e ∙ before-append c u v wu bv,
  sym (from-append c s t ws bt) ∙ ap (from c) e ∙ from-append c u v wu bv,
)

abbrev pub opening : ℕ
opening = 40

abbrev pub closing : ℕ
closing = 41

abbrev NotOpening : Text → Type 0
NotOpening [] = Unit
NotOpening (c ∷ cs) = (c == opening) ≡ false

-- What the regular expressions are relied on for: a name has no slash and does not begin with a parenthesis, a version
-- has no space, and a node ID has no closing parenthesis.
abbrev pub Clean : Agent → Type 0
Clean a = Without slash a.name × NotOpening a.name × Without space a.version

abbrev pub CleanNode : Option Text → Type 0
CleanNode none = Unit
CleanNode (some id) = Without closing id

tail_eq : (x : ℕ) (s t : Text) → (x ∷ s) ≡ (x ∷ t) → s ≡ t
tail_eq x s t e = cc

agent_eq :
    (a b : Agent) (r s : Text)
    → Clean a
    → Clean b
    → Begins space r
    → Begins space s
    → fmt_agent a ++ r ≡ fmt_agent b ++ s
    → (a ≡ b) × (r ≡ s)
agent_eq a b r s (an, _, av) (bn, _, bv) rs ss e =
    let (n, t) =
      split_eq slash a.name (slash ∷ (a.version ++ r)) b.name (slash ∷ (b.version ++ s)) an refl bn
        refl
        (sym (append_assoc a.name (slash ∷ a.version) r)
          ∙ e
          ∙ append_assoc b.name (slash ∷ b.version) s) in
    let (v, q) =
      split_eq space a.version r b.version s av rs bv ss
        (tail_eq slash (a.version ++ r) (b.version ++ s) t) in
    ((λ i. record { name = n i; version = v i }), q)

agents-Begins : (agents : List Agent) → Begins space (fmt_agents agents)
agents-Begins [] = tt
agents-Begins (a ∷ agents) = refl

agents_eq :
    (xs ys : List Agent) → All Clean xs → All Clean ys → fmt_agents xs ≡ fmt_agents ys → xs ≡ ys
agents_eq [] [] f g e = refl
agents_eq [] (y ∷ ys) f g e = cc
agents_eq (x ∷ xs) [] f g e = cc
agents_eq (x ∷ xs) (y ∷ ys) (c, f) (d, g) e =
    let (h, t) =
      agent_eq x y (fmt_agents xs) (fmt_agents ys) c d (agents-Begins xs) (agents-Begins ys)
        (tail_eq space (fmt_agent x ++ fmt_agents xs) (fmt_agent y ++ fmt_agents ys) e) in
    λ i. h i ∷ agents_eq xs ys f g t i

-- After the space, the agents do not begin with a parenthesis.
second : Text → ℕ
second [] = 0
second (x ∷ []) = 0
second (x ∷ y ∷ s) = y

not_node :
    (agents : List Agent) (s : Text)
    → All Clean agents
    → fmt_agents agents ≡ space ∷ opening ∷ s
    → ⊥
unfolding second
not_node [] s f e = cc
not_node (a ∷ agents) s ((_, n, _), f) e = go a.name n (ap second e)
  where
    go :
        (name : Text)
        → NotOpening name
        → second (space ∷ ((name ++ slash ∷ a.version) ++ fmt_agents agents)) ≡ opening
        → ⊥
    go [] n h = ground arith
    go (c ∷ cs) n h = false≢true (sym n ∙ ap (λ x. x == opening) h)

after_prefix : Text → Text
after_prefix (a ∷ b ∷ c ∷ d ∷ e ∷ f ∷ g ∷ h ∷ i ∷ s) = s
after_prefix s = []

node-Begins :
    (o : Option Text) (agents : List Agent) → Begins space (fmt_node o ++ fmt_agents agents)
node-Begins none agents = agents-Begins agents
node-Begins (some id) agents = refl

nodes_eq :
    (o p : Option Text) (xs ys : List Agent)
    → CleanNode o
    → CleanNode p
    → All Clean xs
    → All Clean ys
    → fmt_node o ++ fmt_agents xs ≡ fmt_node p ++ fmt_agents ys
    → (o ≡ p) × (xs ≡ ys)
unfolding after_prefix
nodes_eq none none xs ys c d f g e = (refl, agents_eq xs ys f g e)
nodes_eq none (some j) xs ys c d f g e = elim (not_node xs (second_part j ys) f e) [ ]
  where
    second_part : Text → List Agent → Text
    second_part j ys = 110 ∷ 111 ∷ 100 ∷ 101 ∷ 73 ∷ 100 ∷ 58 ∷ ((j ++ node_suffix) ++ fmt_agents ys)
nodes_eq (some i) none xs ys c d f g e = elim (not_node ys (second_part i xs) g (sym e)) [ ]
  where
    second_part : Text → List Agent → Text
    second_part j ys = 110 ∷ 111 ∷ 100 ∷ 101 ∷ 73 ∷ 100 ∷ 58 ∷ ((j ++ node_suffix) ++ fmt_agents ys)
nodes_eq (some i) (some j) xs ys c d f g e =
    let (n, t) =
      split_eq closing i (closing ∷ fmt_agents xs) j (closing ∷ fmt_agents ys) c refl d refl (
        sym (append_assoc i node_suffix (fmt_agents xs))
        ∙ ap after_prefix e
        ∙ append_assoc j node_suffix (fmt_agents ys)) in
    (ap some n, agents_eq xs ys f g (tail_eq closing (fmt_agents xs) (fmt_agents ys) t))

-- All parts of a user agent are as the regular expressions admit them.
abbrev pub CleanAll : UserAgent → Type 0
CleanAll u = Clean u.primary × CleanNode u.node_id × All Clean u.informational

-- Two user agents whose parts are valid have the same header only if they are the same.
pub fmt-distinct : (u v : UserAgent) → CleanAll u → CleanAll v → fmt u ≡ fmt v → u ≡ v
unfolding fmt
fmt-distinct u v (a, n, f) (b, m, g) e =
    let (p, r) =
      agent_eq u.primary v.primary (fmt_node u.node_id ++ fmt_agents u.informational)
        (fmt_node v.node_id ++ fmt_agents v.informational) a b
        (node-Begins u.node_id u.informational) (node-Begins v.node_id v.informational) e in
    let (o, q) = nodes_eq u.node_id v.node_id u.informational v.informational n m f g r in
    λ i. record { node_id = o i; primary = p i; informational = q i }
