-- ===== src/UserAgent/Examples.antt =====
-- Tests of the user agents.
use conjure_rust_runtime.Prelude.{◌≡◌, refl, Bool, true, false, none, some, [], ◌∷◌}
use conjure_rust_runtime.Config.{Text, json, legacy}
use conjure_rust_runtime.UserAgent.Distinct.{CleanAll, fmt-distinct}
use conjure_rust_runtime.UserAgent.{
  Agent, UserAgent, Valid, default_version, new_agent, set_node_id, new, push_agent, fmt, extend,
  header_value, error_parameter_format,
}

abbrev nonempty : Text → Bool
nonempty [] = false
nonempty (c ∷ cs) = true

abbrev some_valid : Valid
some_valid = record { node = nonempty; name = nonempty; version = nonempty }

-- `a/1` and `b/2`.
abbrev agent : Agent
agent = record { name = 97 ∷ []; version = 49 ∷ [] }

abbrev other : Agent
other = record { name = 98 ∷ []; version = 50 ∷ [] }

-- `a/1 (nodeId:n) b/2`.
fmt_test :
    fmt (push_agent (record (new agent) { node_id = some (110 ∷ []) }) other)
    ≡ 97 ∷ 47 ∷ 49 ∷ 32 ∷ 40 ∷ 110 ∷ 111 ∷ 100 ∷ 101 ∷ 73 ∷ 100 ∷ 58 ∷ 110 ∷ 41 ∷ 32 ∷ 98 ∷ 47 ∷ 50
      ∷ []
unfolding fmt new
fmt_test = refl

version_fallback :
    new_agent some_valid (97 ∷ []) [] ≡ some (record agent { version = default_version })
unfolding new_agent
version_fallback = refl

invalid_test :
    (new_agent some_valid [] [] ≡ none)
    × (set_node_id some_valid (new agent) [] ≡ none)
    × (extend some_valid (98 ∷ []) (50 ∷ []) (new agent) [] none ≡ none)
unfolding new_agent set_node_id extend
invalid_test = (refl, refl, refl)

extend_test :
    extend some_valid (98 ∷ []) (50 ∷ []) (new agent) (97 ∷ []) (some (49 ∷ []))
    ≡ some (record (new agent) { informational = agent ∷ other ∷ [] })
unfolding extend new_agent new
extend_test = refl

error_parameter_format_test :
    (error_parameter_format (header_value (74 ∷ []) json) none ≡ some (74 ∷ []))
    × (error_parameter_format (header_value (74 ∷ []) json) (some []) ≡ some [])
    × (error_parameter_format (header_value (74 ∷ []) legacy) none ≡ none)
unfolding error_parameter_format
error_parameter_format_test = (refl, refl, refl)

abbrev two_agents : UserAgent
two_agents = record { node_id = some (110 ∷ []); primary = agent; informational = other ∷ [] }

fmt-distinct_example :
    two_agents ≡ push_agent (record (new agent) { node_id = some (110 ∷ []) }) other
unfolding new
fmt-distinct_example =
    fmt-distinct two_agents (push_agent (record (new agent) { node_id = some (110 ∷ []) }) other)
      two_clean two_clean refl
  where
    two_clean : CleanAll two_agents
    two_clean = (((refl, tt), refl, (refl, tt)), (refl, tt), (((refl, tt), refl, (refl, tt)), tt))
