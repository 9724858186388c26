-- ===== src/Export/Bodies.antt =====
-- The bodies of the requests of gateway-board/src/export.rs.
use sensor_sensei.Common.{
  ℕ, zero, suc, ◌==◌, Bool, false, Option, List, [], ◌∷◌, ◌++◌, append_assoc, append-nil, ◌≡◌, sym,
  ap, ◌∙◌, Bool-cases, inl, inr, arith,
}
use mathlib.Core.List.{map}
use sensor_sensei.Common.Outcome.{Outcome, ok}
use sensor_sensei.Util.Memchr.{Memchr}
use sensor_sensei.App.Packet.{SensorValuePoint}
use sensor_sensei.Web.Client.{Network, Formatter, HttpClient, extend_from_slice}
use sensor_sensei.Export.{
  SensorCommunitySensor, supports_value, filter_supported, community_value, influx_value,
  write_value_to_body, community_values, influx_values,
}

-- Texts, each after a separator.
abbrev pub after_separators : ℕ → List (List ℕ) → List ℕ
after_separators separator [] = []
after_separators separator (text ∷ texts) = separator ∷ (text ++ after_separators separator texts)

-- Texts with separators between them.
abbrev pub separated : ℕ → List (List ℕ) → List ℕ
separated separator [] = []
separated separator (text ∷ texts) = text ++ after_separators separator texts

abbrev pub from_count : ℕ → ℕ → List (List ℕ) → List ℕ
from_count zero separator texts = separated separator texts
from_count (suc count) separator texts = after_separators separator texts

with_body :
    {K X : Type 0} (c : HttpClient K) {body body' : List ℕ}
    → body ≡ body'
    → ◌≡◌ {A = Outcome (HttpClient K) X (Unit {0})}
        (ok tt (record c { body_buf = body }))
        (ok tt (record c { body_buf = body' }))
with_body c e = ap (λ xs. ok tt (record c { body_buf = xs })) e

onto_separator :
    (body text later : List ℕ) (separator : ℕ)
    → ((body ++ (separator ∷ [])) ++ text) ++ later ≡ body ++ (separator ∷ (text ++ later))
onto_separator body text later separator =
    append_assoc (body ++ (separator ∷ [])) text later
    ∙ append_assoc body (separator ∷ []) (text ++ later)

module _ (m : Memchr) (is_utf8 : List ℕ → Bool) (parse_u16 : List ℕ → Option ℕ)
    (formatter : Formatter) {K C E : Type 0} (network : Network K C E) where
  pub community_values-separated :
      (sensor : SensorCommunitySensor) (count : ℕ) (values : List SensorValuePoint)
      (c : HttpClient K)
      → community_values m is_utf8 parse_u16 formatter network sensor count values c
        ≡ ok tt (record c {
          body_buf =
              c.body_buf
              ++ from_count count b','
                  (map (λ v. community_value formatter v.value) (filter_supported sensor values));
        })
  unfolding community_values write_value_to_body extend_from_slice
  community_values-separated sensor zero [] c = with_body c (sym (append-nil c.body_buf))
  community_values-separated sensor (suc count) [] c = with_body c (sym (append-nil c.body_buf))
  community_values-separated sensor zero (value ∷ values) c =
      let later : List ℕ =
        after_separators b','
          (map (λ v. community_value formatter v.value) (filter_supported sensor values)) in
      let text : List ℕ = community_value formatter value.value in
      elim (Bool-cases (supports_value sensor value.value)) [
        | inl supported ↦ rw supported (
            community_values-separated sensor 1 values (record c { body_buf = c.body_buf ++ text })
            ∙ with_body c (append_assoc c.body_buf text later))
        | inr other ↦ rw other (community_values-separated sensor zero values c)
      ]
  community_values-separated sensor (suc count) (value ∷ values) c =
      let later : List ℕ =
        after_separators b','
          (map (λ v. community_value formatter v.value) (filter_supported sensor values)) in
      let text : List ℕ = community_value formatter value.value in
      elim (Bool-cases (supports_value sensor value.value)) [
        | inl supported ↦
            rw (supported, let not_first : (suc count == 0) ≡ false = ground arith in not_first)
              (community_values-separated sensor (suc (suc count)) values
                  (record c { body_buf = (c.body_buf ++ (b',' ∷ [])) ++ text })
                ∙ with_body c (onto_separator c.body_buf text later b','))
        | inr other ↦ rw other (community_values-separated sensor (suc count) values c)
      ]

  pub influx_values-separated :
      (count : ℕ) (values : List SensorValuePoint) (c : HttpClient K)
      → influx_values m is_utf8 parse_u16 formatter network count values c
        ≡ ok tt (record c {
          body_buf =
              c.body_buf
              ++ from_count count b'\n' (map (λ v. influx_value formatter v.value) values);
        })
  unfolding influx_values write_value_to_body extend_from_slice
  influx_values-separated zero [] c = with_body c (sym (append-nil c.body_buf))
  influx_values-separated (suc count) [] c = with_body c (sym (append-nil c.body_buf))
  influx_values-separated zero (value ∷ values) c =
      let text : List ℕ = influx_value formatter value.value in
      influx_values-separated 1 values (record c { body_buf = c.body_buf ++ text })
      ∙ with_body c (
          append_assoc c.body_buf text
            (after_separators b'\n' (map (λ v. influx_value formatter v.value) values)))
  influx_values-separated (suc count) (value ∷ values) c =
      let text : List ℕ = influx_value formatter value.value in
      let not_first : (suc count == 0) ≡ false = ground arith in
      rw not_first (
        influx_values-separated (suc (suc count)) values
          (record c { body_buf = (c.body_buf ++ (b'\n' ∷ [])) ++ text })
        ∙ with_body c (
            onto_separator c.body_buf text
              (after_separators b'\n' (map (λ v. influx_value formatter v.value) values)) b'\n'))
