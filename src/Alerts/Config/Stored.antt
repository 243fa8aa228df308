-- ===== src/Alerts/Config/Stored.antt =====
-- The configs that server/app/alerts.py stores are in normal form.
use crashlens.Base.{
  ◌≡◌, refl, String, Bool, true, false, Option, none, some, List, [], ◌∷◌, all, map, ◌==◌,
  string_eq, eq_iff, arith, Bool-cases, inl, inr,
}
use crashlens.Json.{
  Json, null, bool, int, float, str, arr, obj, Fields, end, field, get, get_or_null, of_list,
}
use crashlens.Alerts.Config.{
  Texts, valid, is_https_url, texts_of, cleaned, to_field, recipients, email_config, url_checked,
  url_config, config_of, is_channel_type, checked_object, validate_channel_config,
}

-- `str.strip` takes all away at once, and the empty text has no scheme.
pub record IsTexts (x : Texts) : Type 0 where
  pub strip_strip : (s : String) → x.strip (x.strip s) ≡ x.strip s
  pub strip_empty : x.strip "" ≡ ""
  pub split_empty : x.urlsplit "" ≡ some (record { scheme = ""; netloc = "" })

texts_of-str : (texts : List String) → texts_of (of_list (map str texts)) ≡ some texts
texts_of-str [] = refl
texts_of-str (s ∷ texts) = rw (texts_of-str texts) refl

cleaned_again :
    (x : Texts) (texts : List String) → IsTexts x → cleaned x (cleaned x texts) ≡ cleaned x texts
cleaned_again x [] k = refl
cleaned_again x (s ∷ texts) k = elim (Bool-cases (x.strip s == "")) [
  | inl empty ↦ rw empty (cleaned_again x texts k)
  | inr full ↦ rw (full, k.strip_strip s, full, cleaned_again x texts k) refl
]

to_again :
    (x : Texts) (texts : List String)
    → all x.is_email texts ≡ true
    → cleaned x texts ≡ texts
    → email_config x (get_or_null "to" (to_field texts)) ≡ valid (to_field texts)
unfolding get
to_again x [] emails same = refl
to_again x (s ∷ texts) emails same = rw (texts_of-str texts, same, emails) refl

recipients_again :
    (x : Texts) (o : Option (List String)) (d : Fields)
    → IsTexts x
    → recipients x o ≡ valid d
    → email_config x (get_or_null "to" d) ≡ valid d
recipients_again x none d k h = cc
recipients_again x (some texts) d k h = elim (Bool-cases (all x.is_email (cleaned x texts))) [
  | inl emails ↦
      let same : to_field (cleaned x texts) ≡ d = cc in
      rw (← same) (to_again x (cleaned x texts) emails (cleaned_again x texts k))
  | inr other ↦ cc
]

email_again :
    (x : Texts) (v : Json) (d : Fields)
    → IsTexts x
    → email_config x v ≡ valid d
    → email_config x (get_or_null "to" d) ≡ valid d
unfolding get
email_again x null d k h = let same : end ≡ d = cc in rw (← same) refl
email_again x (arr items) d k h = recipients_again x (texts_of items) d k h
email_again x (bool b) d k h = cc
email_again x (int n) d k h = cc
email_again x (float b s) d k h = cc
email_again x (str s) d k h = cc
email_again x (obj e) d k h = cc

-- A text that passes is not empty when stripped, and passes again.
pub https_again :
    (x : Texts) (s : String)
    → IsTexts x
    → is_https_url x (str s) ≡ some true
    → (x.strip s == "" ≡ false) × (is_https_url x (str (x.strip s)) ≡ some true)
unfolding is_https_url
https_again x s k h = elim (Bool-cases (s == "")) [
  | inl empty ↦ absurd (cc (rw empty at h))
  | inr some_text ↦
      let split = rw some_text at h in
      elim (Bool-cases (x.strip s == "")) [
        | inl blank ↦
            let e : x.strip s ≡ "" = (eq_iff (x.strip s) "").0 blank in
            absurd (cc (rw (e, k.split_empty) at split))
        | inr full ↦ (full, rw (full, k.strip_strip s) split)
      ]
]

url_again :
    (x : Texts) (key : String) (v : Json) (d : Fields)
    → IsTexts x
    → url_checked x key v (is_https_url x v) ≡ valid d
    → url_config x key d ≡ valid d
unfolding get is_https_url
url_again x key v d k h = go v h
  where
    again :
        (s : String)
        → is_https_url x (str s) ≡ some true
        → url_config x key (field key (str (x.strip s)) end)
          ≡ valid (field key (str (x.strip s)) end)
    again s passes =
        let same : key == key ≡ true = ground (arith, eq_iff key key) in
        rw (same, (https_again x s k passes).1, k.strip_strip s) refl

    of_text :
        (s : String) (o : Option Bool)
        → is_https_url x (str s) ≡ o
        → url_checked x key (str s) o ≡ valid d
        → url_config x key d ≡ valid d
    of_text s none e h = cc
    of_text s (some false) e h = cc
    of_text s (some true) e h =
        let same : field key (str (x.strip s)) end ≡ d = cc in rw (← same) (again s e)

    go :
        (v : Json) → url_checked x key v (is_https_url x v) ≡ valid d → url_config x key d ≡ valid d
    go (str s) h = of_text s (is_https_url x (str s)) refl h
    go null h = cc
    go (bool b) h = cc
    go (int n) h = cc
    go (float b s) h = cc
    go (arr vs) h = cc
    go (obj e) h = cc

of_config :
    (x : Texts) (channel_type : String) (config d : Fields)
    → IsTexts x
    → config_of x channel_type config ≡ valid d
    → config_of x channel_type d ≡ valid d
of_config x channel_type config d k h = elim (Bool-cases (channel_type == "email")) [
  | inl email ↦ rw email (email_again x (get_or_null "to" config) d k (rw email at h))
  | inr other ↦ elim (Bool-cases (channel_type == "slack")) [
    | inl slack ↦
        rw (other, slack)
          (url_again x "webhook_url" (get_or_null "webhook_url" config) d k
            (rw (other, slack) at h))
    | inr webhook ↦
        rw (other, webhook)
          (url_again x "url" (get_or_null "url" config) d k (rw (other, webhook) at h))
  ]
]

-- What the validation of a channel's config gives is in normal form: given to it again, for a channel of
-- the same type, it is taken and comes out as it is. So an update with the config that is stored
-- changes nothing of it. `str.strip` takes all away at once, and the empty text has no scheme.
pub validate_channel_config-valid :
    (x : Texts) (channel_type : String) (config : Json) (d : Fields)
    → IsTexts x
    → validate_channel_config x channel_type config ≡ valid d
    → validate_channel_config x channel_type (obj d) ≡ valid d
unfolding validate_channel_config
validate_channel_config-valid x channel_type config d k h =
    elim (Bool-cases (is_channel_type channel_type)) [
      | inl known ↦ rw known (go config (rw known at h))
      | inr unknown ↦ absurd (cc (rw unknown at h))
    ]
  where
    go :
        (config : Json)
        → checked_object x channel_type config ≡ valid d
        → config_of x channel_type d ≡ valid d
    go null h = of_config x channel_type end d k h
    go (obj config) h = of_config x channel_type config d k h
    go (bool b) h = cc
    go (int n) h = cc
    go (float b s) h = cc
    go (str s) h = cc
    go (arr vs) h = cc
