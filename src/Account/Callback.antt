-- ===== src/Account/Callback.antt =====
-- web/src/pages/AuthCallbackPage.tsx: the token that single sign-on puts behind the `#`.
use tlsentinel_server.Common.{Bool, true, List, [], ◌∷◌, Option, none, some, drop, if◌then◌else◌}
use tlsentinel_server.Text.{Text, codes, text_eq}
use tlsentinel_server.Client.{Browser, set_token, truthy}

pub record CallbackPage : Type 0 where
  pub error : Option Text
  pub browser : Browser
  -- Whether the router was sent to `/`.
  pub at_home : Bool

-- `params.get('token')`, of the pairs in their order.
unfoldable pub param : Text → List (Text × Text) → Option Text
param k [] = none
param k ((j, v) ∷ ps) = if text_eq j k then some v else param k ps

abbrev pub received : Option Text → CallbackPage → CallbackPage
received none p = record p { error = some (codes "No token received from the identity provider.") }
received (some token) p = record p { browser = set_token token p.browser; at_home = true }

-- The parameter reads the pairs of a query.
module _ (search_params : Text → List (Text × Text)) where
  -- The effect of the page, on `window.location.hash`.
  unfoldable pub callback : Text → CallbackPage → CallbackPage
  unfolding param
  callback hash p = received (truthy (param (codes "token") (search_params (drop 1 hash)))) p
