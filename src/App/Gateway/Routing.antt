-- ===== src/App/Gateway/Routing.antt =====
-- Where a request goes, and with which headers.
use text.Mathlib.Text.{starts_with}
use Prim.Native.String.{◌++◌ as str_append}
use converse_os.Prelude.{◌≡◌, ◌⊎◌, String, Option, false, string_eq, All, Any, Result}
use converse_os.Prelude.Dict.{Dict}
use converse_os.App.Gateway.{
  ProxyRequest, Outgoing, Incoming, GatewayError, ClientError, outgoing, answer, replied,
}

-- the path starts with the prefix of a route that leads to the address
abbrev pub LeadsTo : String → String → String × String → Type 0
LeadsTo path url (prefix, target) =
    (target ≡ url) × ((rest : String) × (path ≡ str_append prefix rest))

-- no route leads anywhere, or one leads to an empty address
abbrev pub IsNowhere : Dict String String → String → Type 0
IsNowhere routes path =
    All (λ route. starts_with path route.0 ≡ false) routes ⊎ Any (LeadsTo path "") routes

module _ {S : Type 0} (send : Outgoing → S → Result ClientError Incoming × S) where
  -- the request was sent to the address, and the answer is what the client's outcome is made to
  abbrev pub IsForwarded :
      ProxyRequest → String → S → Result GatewayError (Option Incoming) × S → Type 0
  IsForwarded r url s outcome =
      let (received, s') = send (outgoing r url) s in outcome ≡ (replied (answer send received), s')
