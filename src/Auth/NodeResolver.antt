-- ===== src/Auth/NodeResolver.antt =====
-- cagent/src/cagent_api/node_resolver.py: is a node still desired? The HTTP exchange with Nautobot
-- is a parameter: what it brought back, or why it failed.
use pj_clusterintent.Prelude.{
  String, Bool, false, Option, none, some, List, [], ◌∷◌, str_eq, if◌then◌else◌, not,
}
use pj_clusterintent.Prelude.Result.{Result, ok, err}
use pj_clusterintent.Prelude.Text.{lower}

-- One entry of `desired_nodes`.
pub record DesiredNode : Type 0 where
  pub id : String
  pub lifecycle : Option String

-- The decoded body; `errors` is empty if the key is missing.
pub record GraphqlBody : Type 0 where
  pub errors : List String
  pub desired_nodes : List DesiredNode

pub data ResolverError : Type 0 where
  unreachable : (url reason : String) → ResolverError
  graphql_errors : List String → ResolverError

abbrev pub or_blank : Option String → String
or_blank none = ""
or_blank (some s) = s

-- `INVALID_LIFECYCLES` has one member.
unfoldable pub lifecycle_is_valid : Option String → Bool
unfolding lower
lifecycle_is_valid lifecycle = not (str_eq (lower (or_blank lifecycle)) "retired")

-- The loop: the first node with the id decides.
unfoldable pub find_valid : String → List DesiredNode → Bool
unfolding lifecycle_is_valid
find_valid node_uuid [] = false
find_valid node_uuid (node ∷ nodes) =
    if str_eq node.id node_uuid
    then lifecycle_is_valid node.lifecycle
    else find_valid node_uuid nodes

unfoldable pub is_valid :
    (url : String) → Result String GraphqlBody → String → Result ResolverError Bool
unfolding find_valid
is_valid url (err reason) node_uuid = err (unreachable url reason)
is_valid url (ok (body)) node_uuid = decide body.errors body
  where
    decide : List String → GraphqlBody → Result ResolverError Bool
    decide [] body = ok (find_valid node_uuid body.desired_nodes)
    decide (e ∷ es) body = err (graphql_errors (e ∷ es))
