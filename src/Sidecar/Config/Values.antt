-- ===== src/Sidecar/Config/Values.antt =====
-- What a variable spells, described without the code of sidecar/cmd/main.go: a number, a time, a
-- text and the scrape target, each with its default.
use pprof_operator.Prelude.{
  ◌≡◌, ◌≢◌, refl, ◌∙◌, sym, true, none, some, String, arith, eq_iff, Option-cases, Bool-cases, inl,
  inr, ◌==◌,
}
use pprof_operator.Prelude.Int.{ℤ, pos, ◌*ℤ◌, wrap64}
use pprof_operator.Text.Decimal.{atoi}
use pprof_operator.Sidecar.Types.{ScrapTarget}
use pprof_operator.Sidecar.Config.{int_from_env, period_from_env, get_scrap_target, or_text}

text_of_empty : (text : String) → (text == "") ≡ true → text ≡ ""
text_of_empty text h = ground (arith, eq_iff text "")

-- A number: what the text spells, and the default where it spells none.
pub record IsNumber (text : String) (default v : ℤ) : Type 0 where
  pub spelled : (n : ℤ) → atoi text ≡ some n → v ≡ n
  pub otherwise : atoi text ≡ none → v ≡ default

-- A text: what the variable has, and the default where it is empty.
pub record IsText (text default v : String) : Type 0 where
  pub given : text ≢ "" → v ≡ text
  pub otherwise : text ≡ "" → v ≡ default

-- A time in seconds, as nanoseconds in 64 bits.
pub record IsSeconds (text : String) (default v : ℤ) : Type 0 where
  pub spelled : (n : ℤ) → atoi text ≡ some n → v ≡ wrap64 (n *ℤ pos 1_000_000_000)
  pub otherwise : atoi text ≡ none → v ≡ default

pub IsNumber-int_from_env : (text : String) (d : ℤ) → IsNumber text d (int_from_env text d)
unfolding int_from_env atoi
IsNumber-int_from_env text d = elim (Bool-cases (text == "")) [
  | inl empty ↦
      let nothing : atoi text ≡ none = rw (text_of_empty text empty) refl in
      record { spelled = λ n h. cc (h, nothing); otherwise = λ h. rw empty refl }
  | inr set ↦ record { spelled = λ n h. rw (set, h) refl; otherwise = λ h. rw (set, h) refl }
]

pub IsSeconds-period_from_env :
    (text : String) → IsSeconds text (pos 15_000_000_000) (period_from_env text)
unfolding period_from_env atoi
IsSeconds-period_from_env text = elim (Bool-cases (text == "")) [
  | inl empty ↦
      let nothing : atoi text ≡ none = rw (text_of_empty text empty) refl in
      record { spelled = λ n h. cc (h, nothing); otherwise = λ h. rw empty refl }
  | inr set ↦ record { spelled = λ n h. rw (set, h) refl; otherwise = λ h. rw (set, h) refl }
]

pub IsText-or_text : (text d : String) → IsText text d (or_text text d)
IsText-or_text text d = record {
  given = λ ne. ground (arith, eq_iff text "");
  otherwise = λ e. ground (arith, eq_iff text "");
}

pub IsNumber-unique : (text : String) (d v u : ℤ) → IsNumber text d v → IsNumber text d u → v ≡ u
IsNumber-unique text d v u h k = elim (Option-cases (atoi text)) [
  | inl nothing ↦ h.otherwise nothing ∙ sym (k.otherwise nothing)
  | inr (n, read) ↦ h.spelled n read ∙ sym (k.spelled n read)
]

pub IsSeconds-unique : (text : String) (d v u : ℤ) → IsSeconds text d v → IsSeconds text d u → v ≡ u
IsSeconds-unique text d v u h k = elim (Option-cases (atoi text)) [
  | inl nothing ↦ h.otherwise nothing ∙ sym (k.otherwise nothing)
  | inr (n, read) ↦ h.spelled n read ∙ sym (k.spelled n read)
]

pub IsText-unique : (text d v u : String) → IsText text d v → IsText text d u → v ≡ u
IsText-unique text d v u h k = elim (Bool-cases (text == "")) [
  | inl empty ↦ let e = text_of_empty text empty in h.otherwise e ∙ sym (k.otherwise e)
  | inr set ↦
      let ne : text ≢ "" = λ e. absurd (ground (arith, eq_iff text "")) in
      h.given ne ∙ sym (k.given ne)
]

-- The target: credentials are read if the type is "Basic".
pub record IsTarget (getenv : String → String) (t : ScrapTarget) : Type 0 where
  pub url : t.scrape_url ≡ getenv "SCRAPE_URL"
  pub basic :
      getenv "AUTH_TYPE" ≡ "Basic"
      → t.auth
        ≡ some (record {
          type = "Basic";
          basic_auth = some (record {
            username = getenv "AUTH_USERNAME";
            password = getenv "AUTH_PASSWORD";
            secret_ref = none;
          });
        })
  pub other : getenv "AUTH_TYPE" ≢ "Basic" → t.auth ≡ some (record { type = ""; basic_auth = none })

pub IsTarget-get_scrap_target :
    (getenv : String → String) → IsTarget getenv (get_scrap_target getenv)
unfolding get_scrap_target
IsTarget-get_scrap_target getenv = record {
  url = refl;
  basic = λ e. ground (arith, eq_iff (getenv "AUTH_TYPE") "Basic");
  other = λ e. ground (arith, eq_iff (getenv "AUTH_TYPE") "Basic");
}

pub IsTarget-unique :
    (getenv : String → String) (t u : ScrapTarget) → IsTarget getenv t → IsTarget getenv u → t ≡ u
IsTarget-unique getenv t u h k =
    let auth : t.auth ≡ u.auth = elim (Bool-cases (getenv "AUTH_TYPE" == "Basic")) [
      | inl same ↦
          let e : getenv "AUTH_TYPE" ≡ "Basic" =
            ground (arith, eq_iff (getenv "AUTH_TYPE") "Basic") in
          h.basic e ∙ sym (k.basic e)
      | inr unlike ↦
          let ne : getenv "AUTH_TYPE" ≢ "Basic" =
            λ e. absurd (ground (arith, eq_iff (getenv "AUTH_TYPE") "Basic")) in
          h.other ne ∙ sym (k.other ne)
    ] in
    λ i. record { scrape_url = (h.url ∙ sym k.url) i; auth = auth i }
