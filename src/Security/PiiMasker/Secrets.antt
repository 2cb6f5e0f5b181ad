-- ===== src/Security/PiiMasker/Secrets.antt =====
-- What stands under a sensitive name does not reach the masked data.
use converse_os.Prelude.{ℕ, suc, ◌≡◌, refl, ap, ◌≤◌, String, true, false, ltb, if◌then◌else◌, arith}
use converse_os.Domain.Value.{Value, str, list, dict, Values, nil, cons, Fields, end, field}
use converse_os.Security.PiiMasker.{
  Pattern, is_sensitive, mask_fields, mask_value, mask_items, mask_item, mask_dict,
}

-- Data that differ at most under sensitive names, down to the greatest depth.
mutual
  pub data AlikeFields (max_depth : ℕ) : ℕ → Fields → Fields → Type 0 where
    ends : {depth : ℕ} → AlikeFields max_depth depth end end
    secret :
        {depth : ℕ} {fs gs : Fields} (key : String) (v w : Value)
        → is_sensitive key ≡ true
        → AlikeFields max_depth depth fs gs
        → AlikeFields max_depth depth (field key v fs) (field key w gs)
    open_field :
        {depth : ℕ} {fs gs : Fields} (key : String) {v w : Value}
        → AlikeValue max_depth depth v w
        → AlikeFields max_depth depth fs gs
        → AlikeFields max_depth depth (field key v fs) (field key w gs)

  pub data AlikeValue (max_depth : ℕ) : ℕ → Value → Value → Type 0 where
    same : {depth : ℕ} (v : Value) → AlikeValue max_depth depth v v
    dicts :
        {depth : ℕ} {fs gs : Fields}
        → suc depth ≤ max_depth
        → AlikeFields max_depth (suc depth) fs gs
        → AlikeValue max_depth depth (dict fs) (dict gs)
    lists :
        {depth : ℕ} {vs ws : Values}
        → AlikeItems max_depth depth vs ws
        → AlikeValue max_depth depth (list vs) (list ws)

  pub data AlikeItems (max_depth : ℕ) : ℕ → Values → Values → Type 0 where
    none_left : {depth : ℕ} → AlikeItems max_depth depth nil nil
    same_item :
        {depth : ℕ} {vs ws : Values} (v : Value)
        → AlikeItems max_depth depth vs ws
        → AlikeItems max_depth depth (cons v vs) (cons v ws)
    dict_item :
        {depth : ℕ} {vs ws : Values} {fs gs : Fields}
        → suc depth ≤ max_depth
        → AlikeFields max_depth (suc depth) fs gs
        → AlikeItems max_depth depth vs ws
        → AlikeItems max_depth depth (cons (dict fs) vs) (cons (dict gs) ws)

module _ (sub : Pattern → (String → String) → String → String) (max_depth : ℕ) where
  -- a dict within the depth, masked or not, if the masks agree
  within :
      (depth : ℕ) (fs gs : Fields)
      → suc depth ≤ max_depth
      → mask_fields sub max_depth (suc depth) fs ≡ mask_fields sub max_depth (suc depth) gs
      → dict (if ltb max_depth (suc depth) then fs else mask_fields sub max_depth (suc depth) fs)
        ≡ dict (if ltb max_depth (suc depth) then gs else mask_fields sub max_depth (suc depth) gs)
  within depth fs gs h e =
      let shallow : ltb max_depth (suc depth) ≡ false = ground arith in rw shallow (ap dict e)

  mutual
    unfolding mask_fields

    mask_fields-Alike :
        {depth : ℕ} {fs gs : Fields}
        → AlikeFields max_depth depth fs gs
        → mask_fields sub max_depth depth fs ≡ mask_fields sub max_depth depth gs
    mask_fields-Alike ends = refl
    mask_fields-Alike (secret key v w h rest) =
        rw h (ap (field key (str "***REDACTED***")) (mask_fields-Alike rest))
    mask_fields-Alike {depth} (open_field key a rest) = λ i.
        field key (if is_sensitive key then str "***REDACTED***" else mask_value-Alike a i)
          (mask_fields-Alike rest i)

    mask_value-Alike :
        {depth : ℕ} {v w : Value}
        → AlikeValue max_depth depth v w
        → mask_value sub max_depth depth v ≡ mask_value sub max_depth depth w
    mask_value-Alike (same v) = refl
    mask_value-Alike (dicts h a) = within _ _ _ h (mask_fields-Alike a)
    mask_value-Alike (lists a) = ap list (mask_items-Alike a)

    mask_items-Alike :
        {depth : ℕ} {vs ws : Values}
        → AlikeItems max_depth depth vs ws
        → mask_items sub max_depth depth vs ≡ mask_items sub max_depth depth ws
    mask_items-Alike none_left = refl
    mask_items-Alike {depth} (same_item v a) =
        ap (cons (mask_item sub max_depth depth v)) (mask_items-Alike a)
    mask_items-Alike (dict_item h a rest) =
        λ i. cons (within _ _ _ h (mask_fields-Alike a) i) (mask_items-Alike rest i)

  -- Two dicts that differ only in the values under sensitive names, at depths up to the greatest one,
  -- are masked to the same dict, whatever the patterns match: nothing of these values is shown. Lists
  -- inside lists are left out: there the two dicts have the same values.
  pub mask_dict-Alike :
      (depth : ℕ) (fs gs : Fields)
      → depth ≤ max_depth
      → AlikeFields max_depth depth fs gs
      → mask_dict sub max_depth depth fs ≡ mask_dict sub max_depth depth gs
  unfolding mask_dict
  mask_dict-Alike depth fs gs h a =
      let shallow : ltb max_depth depth ≡ false = ground arith in rw shallow (mask_fields-Alike a)
