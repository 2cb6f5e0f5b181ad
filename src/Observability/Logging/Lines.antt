-- ===== src/Observability/Logging/Lines.antt =====
-- What a line of the log says of the context.
use mathlib.Core.Path.{subst}
use converse_os.Prelude.{
  Bool, true, false, ap, ◌∙◌, ℕ, String, ◌≡◌, refl, Option, none, some, ◌==◌, ==_iff, string_eq,
  if◌then◌else◌, arith,
}
use converse_os.Prelude.Dict.{Dict, lookup, lookup-insert}
use converse_os.Domain.Value.{Value, str}
use converse_os.Security.TenantContext.{TenantContext}
use converse_os.Observability.Logging.{add_text, add_id, add_context_vars}

-- the value that a context has for a key of a line, if it has one
abbrev pub or_else : Option Value → Option Value → Option Value
or_else (some v) old = some v
or_else none old = old

abbrev pub text_of : Option String → Option Value
text_of none = none
text_of (some text) = if text == "" then none else some (str text)

abbrev pub id_of : (ℕ → String) → Option ℕ → Option Value
id_of str_uuid none = none
id_of str_uuid (some id) = some (str (str_uuid id))

lookup-add_text :
    (key k : String) (text : Option String) (line : Dict String Value)
    → lookup k (add_text key text line)
      ≡ (if key == k then or_else (text_of text) (lookup k line) else lookup k line)
unfolding add_text
lookup-add_text key k none line = ground arith
lookup-add_text key k (some text) line = ground (arith, lookup-insert key k (str text) line)

lookup-add_id :
    (str_uuid : ℕ → String) (key k : String) (id : Option ℕ) (line : Dict String Value)
    → lookup k (add_id str_uuid key id line)
      ≡ (if key == k then or_else (id_of str_uuid id) (lookup k line) else lookup k line)
unfolding add_id
lookup-add_id str_uuid key k none line = ground arith
lookup-add_id str_uuid key k (some id) line =
    ground (arith, lookup-insert key k (str (str_uuid id)) line)

other_key : (a b k : String) → (b == a) ≡ false → (a == k) ≡ true → (b == k) ≡ false
other_key a b k differ h = subst (λ x. (b == x) ≡ false) ((==_iff a k).0 h) differ

-- three assignments to different keys, the last one first
three :
    (a b c : Bool) (u t o x0 x1 x2 x3 : Option Value)
    → x1 ≡ (if c then or_else o x0 else x0)
    → x2 ≡ (if b then or_else t x1 else x1)
    → x3 ≡ (if a then or_else u x2 else x2)
    → (a ≡ true → b ≡ false)
    → (a ≡ true → c ≡ false)
    → (b ≡ true → c ≡ false)
    → x3 ≡ (if a then or_else u x0 else if b then or_else t x0 else if c then or_else o x0 else x0)
three true true c u t o x0 x1 x2 x3 h1 h2 h3 d e f = ground arith
three true false true u t o x0 x1 x2 x3 h1 h2 h3 d e f = ground arith
three true false false u t o x0 x1 x2 x3 h1 h2 h3 d e f = h3 ∙ ap (or_else u) (h2 ∙ h1)
three false true true u t o x0 x1 x2 x3 h1 h2 h3 d e f = ground arith
three false true false u t o x0 x1 x2 x3 h1 h2 h3 d e f = h3 ∙ h2 ∙ ap (or_else t) h1
three false false c u t o x0 x1 x2 x3 h1 h2 h3 d e f = h3 ∙ h2 ∙ h1

-- A line has, under "user_id", "tenant_id" and "correlation_id", what the context has, and what it had
-- before if the context has nothing (an empty correlation id counts as nothing); every other key of
-- the line is as before.
pub lookup-add_context_vars :
    (str_uuid : ℕ → String) (ctx : TenantContext) (line : Dict String Value) (k : String)
    → lookup k (add_context_vars str_uuid ctx line) ≡ (
        if "user_id" == k
        then or_else (id_of str_uuid ctx.user_id) (lookup k line)
        else if "tenant_id" == k
        then or_else (id_of str_uuid ctx.tenant_id) (lookup k line)
        else if "correlation_id" == k
        then or_else (text_of ctx.correlation_id) (lookup k line)
        else lookup k line)
unfolding add_context_vars
lookup-add_context_vars str_uuid ctx line k =
    let with_text = add_text "correlation_id" ctx.correlation_id line in
    let with_tenant = add_id str_uuid "tenant_id" ctx.tenant_id with_text in
    three ("user_id" == k) ("tenant_id" == k) ("correlation_id" == k) (id_of str_uuid ctx.user_id)
      (id_of str_uuid ctx.tenant_id) (text_of ctx.correlation_id) (lookup k line)
      (lookup k with_text) (lookup k with_tenant) (lookup k (add_context_vars str_uuid ctx line))
      (lookup-add_text "correlation_id" k ctx.correlation_id line)
      (lookup-add_id str_uuid "tenant_id" k ctx.tenant_id with_text)
      (lookup-add_id str_uuid "user_id" k ctx.user_id with_tenant)
      (other_key "user_id" "tenant_id" k refl) (other_key "user_id" "correlation_id" k refl)
      (other_key "tenant_id" "correlation_id" k refl)
