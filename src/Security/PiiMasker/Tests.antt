-- ===== src/Security/PiiMasker/Tests.antt =====
-- Masks of concrete texts and data, with patterns that match a whole text or nothing.
use converse_os.Prelude.{◌≡◌, refl, String, true, arith}
use converse_os.Domain.Value.{str, list, dict, nil, cons, Fields, end, field}
use converse_os.Security.PiiMasker.{
  Pattern, mask_email, mask_phone, mask_ip, is_sensitive, mask_dict,
}
use converse_os.Security.PiiMasker.Secrets.{
  AlikeFields, ends, secret, open_field, same, lists, none_left, dict_item, mask_dict-Alike,
}

mask_email_test : mask_email "john@example.com" ≡ "j***@***.com"
unfolding mask_email
mask_email_test = refl

mask_phone_test : mask_phone "+1 555-123-4567" ≡ "***-***-4567"
unfolding mask_phone
mask_phone_test = refl

-- four groups are masked to five
mask_ip_test : mask_ip "10.0.0.1" ≡ "10.***.***.***.***"
unfolding mask_ip
mask_ip_test = refl

abbrev no_match : Pattern → (String → String) → String → String
no_match p f s = s

-- a list in a list is left as it is
nested_list_test :
    mask_dict no_match 10 0
      (field "a" (list (cons (list (cons (dict (field "token" (str "t") end)) nil)) nil)) end)
    ≡ field "a" (list (cons (list (cons (dict (field "token" (str "t") end)) nil)) nil)) end
unfolding mask_dict
nested_list_test = refl

abbrev login : String → Fields
login password =
    field "users"
      (list (cons (dict (field "name" (str "john") (field "Password" (str password) end))) nil)) end

password_sensitive : is_sensitive "Password" ≡ true
unfolding is_sensitive
password_sensitive = refl

login-Alike : AlikeFields 10 0 (login "one") (login "two")
login-Alike =
    open_field "users"
      (lists (
        dict_item (omega arith)
          (open_field "name" (same (str "john"))
            (secret "Password" (str "one") (str "two") password_sensitive ends))
          none_left))
      ends

mask_dict-Alike_example :
    mask_dict no_match 10 0 (login "one") ≡ mask_dict no_match 10 0 (login "two")
mask_dict-Alike_example =
    mask_dict-Alike no_match 10 0 (login "one") (login "two") (omega arith) login-Alike
