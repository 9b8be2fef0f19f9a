-- ===== src/K8sDynamic/Validation/Accepted.antt =====
-- Which configurations of a gatherer are valid.
use jetstack_secure.Prelude.{
  ℕ, ◌+◌, String, ◌≡◌, ◌↔◌, refl, ap, Bool, true, false, not, ◌&&◌, Option, none, some, List, [],
  ◌∷◌, ◌++◌, arith, ◌==◌, is_some, is_set,
}
use jetstack_secure.Prelude.Lists.{all, is_empty}
use jetstack_secure.K8sDynamic.Validation.{
  ConfigDynamic, Parsers, ValidationError, when, parse_errors, selector_errors, regex_errors,
  validate,
}

append-nil : (xs ys : List ValidationError) → (xs ++ ys ≡ []) ↔ ((xs ≡ []) × (ys ≡ []))
append-nil [] ys = (λ h. (refl, h), λ h. h.1)
append-nil (x ∷ xs) ys = (λ h. cc, λ h. let e = h.0 in cc)

when_nil : (b : Bool) (e : ValidationError) → (when b e ≡ []) ↔ (b ≡ false)
unfolding when
when_nil true e = (λ h. cc, λ h. cc)
when_nil false e = (λ h. refl, λ h. refl)

parse_errors-nil :
    (invalid : ℕ → String → ValidationError) (i : ℕ) (o : Option String)
    → (parse_errors invalid i o ≡ []) ↔ (is_some o ≡ false)
unfolding parse_errors
parse_errors-nil invalid i none = (λ h. refl, λ h. refl)
parse_errors-nil invalid i (some e) = (λ h. cc, λ h. cc)

-- A selector that is not empty and parses; a pattern that compiles.
abbrev pub is_selector : (String → Option String) → String → Bool
is_selector parse s = is_set s && not (is_some (parse s))

abbrev pub is_pattern : (String → Option String) → String → Bool
is_pattern compile r = not (is_some (compile r))

selector_errors-nil :
    (parse : String → Option String) (empty : ℕ → ValidationError)
    (invalid : ℕ → String → ValidationError) (i : ℕ) (ss : List String)
    → (selector_errors parse empty invalid i ss ≡ []) ↔ (all (is_selector parse) ss ≡ true)
unfolding selector_errors
selector_errors-nil parse empty invalid i [] = (λ h. refl, λ h. refl)
selector_errors-nil parse empty invalid i (s ∷ ss) =
    let (down, up) =
      append-nil (when (s == "") (empty i))
        (parse_errors invalid i (parse s) ++ selector_errors parse empty invalid (i + 1) ss) in
    let (down', up') =
      append-nil (parse_errors invalid i (parse s))
        (selector_errors parse empty invalid (i + 1) ss) in
    let (is_there, there_is) = when_nil (s == "") (empty i) in
    let (parsed, parses) = parse_errors-nil invalid i (parse s) in
    let (rest, rest') = selector_errors-nil parse empty invalid (i + 1) ss in
    (
      λ h.
          let a = is_there (down h).0 in
          let b = parsed (down' (down h).1).0 in
          let c = rest (down' (down h).1).1 in rw (a, b, c) refl,
      λ h. up (there_is (ground arith), up' (parses (ground arith), rest' (ground arith))),
    )

regex_errors-nil :
    (compile : String → Option String) (invalid : ℕ → String → ValidationError) (i : ℕ)
    (rs : List String)
    → (regex_errors compile invalid i rs ≡ []) ↔ (all (is_pattern compile) rs ≡ true)
unfolding regex_errors
regex_errors-nil compile invalid i [] = (λ h. refl, λ h. refl)
regex_errors-nil compile invalid i (r ∷ rs) =
    let (down, up) =
      append-nil (parse_errors invalid i (compile r)) (regex_errors compile invalid (i + 1) rs) in
    let (parsed, parses) = parse_errors-nil invalid i (compile r) in
    let (rest, rest') = regex_errors-nil compile invalid (i + 1) rs in
    (
      λ h. let a = parsed (down h).0 in let b = rest (down h).1 in rw (a, b) refl,
      λ h. up (parses (ground arith), rest' (ground arith)),
    )

-- What a valid configuration is.
pub record IsValid (parsers : Parsers) (c : ConfigDynamic) : Type 0 where
  pub one_list : not (is_empty c.exclude_namespaces) && not (is_empty c.include_namespaces) ≡ false
  pub has_resource : is_set c.group_version_resource.resource ≡ true
  pub field_selectors : all (is_selector parsers.parse_field_selector) c.field_selectors ≡ true
  pub label_selectors : all (is_selector parsers.parse_label_selector) c.label_selectors ≡ true
  pub annotation_patterns : all (is_pattern parsers.compile) c.exclude_annotation_keys_regex ≡ true
  pub label_patterns : all (is_pattern parsers.compile) c.exclude_label_keys_regex ≡ true

-- `validate` reports no error exactly where the configuration does not both exclude and include
-- namespaces, names a resource, and has only selectors that are not empty and parse, and patterns that
-- compile.
pub validate_iff :
    (parsers : Parsers) (c : ConfigDynamic) → (validate parsers c ≡ []) ↔ IsValid parsers c
unfolding validate
validate_iff parsers c =
    let (w1, w1') =
      when_nil (not (is_empty c.exclude_namespaces) && not (is_empty c.include_namespaces))
        ValidationError.excluded_and_included in
    let (w2, w2') =
      when_nil (c.group_version_resource.resource == "") ValidationError.no_resource in
    let (f, f') =
      selector_errors-nil parsers.parse_field_selector ValidationError.empty_field_selector
        ValidationError.field_selector 0 c.field_selectors in
    let (l, l') =
      selector_errors-nil parsers.parse_label_selector ValidationError.empty_label_selector
        ValidationError.label_selector 0 c.label_selectors in
    let (a, a') =
      regex_errors-nil parsers.compile ValidationError.annotation_regex 0
        c.exclude_annotation_keys_regex in
    let (b, b') =
      regex_errors-nil parsers.compile ValidationError.label_regex 0 c.exclude_label_keys_regex in
    (
      λ h.
          let (h1, t1) = (append-nil _ _).0 h in
          let (h2, t2) = (append-nil _ _).0 t1 in
          let (h3, t3) = (append-nil _ _).0 t2 in
          let (h4, t4) = (append-nil _ _).0 t3 in
          let (h5, h6) = (append-nil _ _).0 t4 in
          record {
            one_list = w1 h1;
            has_resource = ap not (w2 h2);
            field_selectors = f h3;
            label_selectors = l h4;
            annotation_patterns = a h5;
            label_patterns = b h6;
          },
      λ v. (append-nil _ _).1 (
        w1' v.one_list,
        (append-nil _ _).1 (
          w2' (ground arith),
          (append-nil _ _).1 (
            f' v.field_selectors,
            (append-nil _ _).1 (
              l' v.label_selectors,
              (append-nil _ _).1 (a' v.annotation_patterns, b' v.label_patterns),
            ),
          ),
        ),
      ),
    )
