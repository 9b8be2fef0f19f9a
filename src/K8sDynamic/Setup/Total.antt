-- ===== src/K8sDynamic/Setup/Total.antt =====
-- A configuration that validates gives a gatherer: the panics of the loops are out of reach.
use jetstack_secure.Prelude.{
  String, ◌≡◌, ◌↔◌, refl, ap, ◌∙◌, Bool, Option, none, some, sym, true, false, not, ◌&&◌, List, [],
  ◌∷◌, is_some, is_set,
}
use jetstack_secure.Prelude.Results.{Result, ok, err, >>=-eq-ok, ◌>>=◌}
use jetstack_secure.Prelude.Lists.{all}
use jetstack_secure.K8sDynamic.Resources.{Regexp}
use jetstack_secure.K8sDynamic.Validation.{ConfigDynamic, ValidationError, validate}
use jetstack_secure.K8sDynamic.Validation.Accepted.{is_selector, is_pattern, IsValid, validate_iff}
use jetstack_secure.K8sDynamic.Setup.{
  Selectors, SetupError, Created, error_of, parsers_of, add_field_selectors, add_label_selectors,
  compile_patterns, create, generate_excluded_namespaces_field_selector,
  new_data_gatherer_with_client, new_data_gatherer, with_client, registered, created_of,
  create_validated,
}

parses : {A : Type 0} (r : Result String A) → is_some (error_of r) ≡ false → (a : A) × (r ≡ ok a)
unfolding error_of
parses (ok a) h = (a, refl)
parses (err e) h = cc

all_first : (a b : Bool) → a && b ≡ true → (a ≡ true) × (b ≡ true)
all_first true b h = (refl, h)
all_first false b h = cc

not-true : (b : Bool) → not b ≡ true → b ≡ false
not-true true h = cc
not-true false h = refl

bind_ok :
    {A : Type 0} {B : Type 0} (r : Result SetupError A) (next : A → Result SetupError B) (a : A)
    → r ≡ ok a
    → (r >>= next) ≡ next a
bind_ok (ok b) next a h = let same : b ≡ a = cc in ap next same
bind_ok (err e) next a h = cc

create_ok :
    (selectors : Selectors) (c : ConfigDynamic) (f : selectors.FieldSelector)
    (l : selectors.LabelSelector) (annotations labels : List Regexp)
    → add_field_selectors selectors c.field_selectors
        (generate_excluded_namespaces_field_selector selectors c.exclude_namespaces)
      ≡ ok f
    → add_label_selectors selectors c.label_selectors selectors.everything ≡ ok l
    → compile_patterns selectors SetupError.annotation_pattern c.exclude_annotation_keys_regex
      ≡ ok annotations
    → compile_patterns selectors SetupError.label_pattern c.exclude_label_keys_regex ≡ ok labels
    → create selectors none c ≡ ok (created_of selectors c f l annotations labels)
unfolding create
create_ok selectors c f l annotations labels ef el ea els =
    bind_ok _ _ f ef ∙ (bind_ok _ _ l el ∙ (bind_ok _ _ annotations ea ∙ bind_ok _ _ labels els))

module _ (selectors : Selectors) where
  add_field_selectors_ok :
      (ss : List String) (selector : selectors.FieldSelector)
      → all (is_selector (λ s. error_of (selectors.parse_field_selector s))) ss ≡ true
      → (f : selectors.FieldSelector) × (add_field_selectors selectors ss selector ≡ ok f)
  unfolding add_field_selectors
  add_field_selectors_ok [] selector h = (selector, refl)
  add_field_selectors_ok (s ∷ ss) selector h =
      let (first, rest) = all_first _ _ h in
      let (set, good) = all_first (is_set s) _ first in
      let (parsed, e) = parses (selectors.parse_field_selector s) (not-true _ good) in
      rw e (add_field_selectors_ok ss (selectors.and_selectors (selector ∷ parsed ∷ [])) rest)

  add_label_selectors_ok :
      (ss : List String) (selector : selectors.LabelSelector)
      → all (is_selector (λ s. error_of (selectors.parse_label_selector s))) ss ≡ true
      → (l : selectors.LabelSelector) × (add_label_selectors selectors ss selector ≡ ok l)
  unfolding add_label_selectors
  add_label_selectors_ok [] selector h = (selector, refl)
  add_label_selectors_ok (s ∷ ss) selector h =
      let (first, rest) = all_first _ _ h in
      let (set, good) = all_first (is_set s) _ first in
      let (parsed, e) = parses (selectors.parse_label_selector s) (not-true _ good) in
      rw e (add_label_selectors_ok ss (selectors.add selector parsed) rest)

  compile_patterns_ok :
      (bad : String → SetupError) (rs : List String)
      → all (is_pattern (λ r. error_of (selectors.compile r))) rs ≡ true
      → (ps : List Regexp) × (compile_patterns selectors bad rs ≡ ok ps)
  unfolding compile_patterns
  compile_patterns_ok bad [] h = ([], refl)
  compile_patterns_ok bad (r ∷ rs) h =
      let (first, rest) = all_first _ _ h in
      let (p, e) = parses (selectors.compile r) (not-true _ first) in
      let (ps, es) = compile_patterns_ok bad rs rest in (p ∷ ps, rw (e, es) refl)

  -- What `create` makes, from the patterns that it compiled.
  pub record IsCreated (c : ConfigDynamic) (created : Created) : Type 0 where
    pub field : selectors.FieldSelector
    pub label : selectors.LabelSelector
    pub annotations : List Regexp
    pub labels : List Regexp
    pub are_annotations :
        compile_patterns selectors SetupError.annotation_pattern c.exclude_annotation_keys_regex
        ≡ ok annotations
    pub are_labels :
        compile_patterns selectors SetupError.label_pattern c.exclude_label_keys_regex ≡ ok labels
    pub is_field :
        add_field_selectors selectors c.field_selectors
          (generate_excluded_namespaces_field_selector selectors c.exclude_namespaces)
        ≡ ok field
    pub is_label : add_label_selectors selectors c.label_selectors selectors.everything ≡ ok label
    pub is_created : created ≡ created_of selectors c field label annotations labels

  create_validated-nil :
      (errors : List ValidationError) (c : ConfigDynamic) (created : Created)
      → create_validated selectors none c errors ≡ ok created
      → errors ≡ []
  unfolding create_validated
  create_validated-nil [] c created h = refl
  create_validated-nil (e ∷ es) c created h = cc

  -- Where the handlers are registered, a gatherer is created, from the selectors and the patterns of the
  -- configuration, exactly if this validates: no selector panics.
  pub new_data_gatherer_with_client_iff :
      (c : ConfigDynamic)
      → IsValid (parsers_of selectors) c ↔ (
          (created : Created) × (new_data_gatherer_with_client selectors none c ≡ ok created)
          × IsCreated c created)
  unfolding new_data_gatherer_with_client
  new_data_gatherer_with_client_iff c = (
    (λ v.
        let (f, ef) =
          add_field_selectors_ok c.field_selectors
            (generate_excluded_namespaces_field_selector selectors c.exclude_namespaces)
            v.field_selectors in
        let (l, el) =
          add_label_selectors_ok c.label_selectors selectors.everything v.label_selectors in
        let (as', ea) =
          compile_patterns_ok SetupError.annotation_pattern c.exclude_annotation_keys_regex
            v.annotation_patterns in
        let (ls, els) =
          compile_patterns_ok SetupError.label_pattern c.exclude_label_keys_regex
            v.label_patterns in
        let created = created_of selectors c f l as' ls in
        (
          created,
          ap (create_validated selectors none c) ((validate_iff (parsers_of selectors) c).1 v)
              ∙ create_ok selectors c f l as' ls ef el ea els,
          record {
            field = f;
            label = l;
            annotations = as';
            labels = ls;
            are_annotations = ea;
            are_labels = els;
            is_field = ef;
            is_label = el;
            is_created = refl;
          },
        )),
    (λ (created, made, rest).
        (validate_iff (parsers_of selectors) c).0
          (create_validated-nil (validate (parsers_of selectors) c) c created made)),
  )

  create-bare :
      (failure : Option String) (c : ConfigDynamic) (created : Created)
      → create selectors failure c ≡ ok created
      → created.gatherer.redactor.encryptor ≡ none
  unfolding create created_of
  create-bare failure c created h =
      let (f, _, h1) =
        >>=-eq-ok
          (add_field_selectors selectors c.field_selectors
            (generate_excluded_namespaces_field_selector selectors c.exclude_namespaces))
          _ h in
      let (l, _, h2) =
        >>=-eq-ok (add_label_selectors selectors c.label_selectors selectors.everything) _ h1 in
      let (done, _, h3) = >>=-eq-ok (registered selectors failure) _ h2 in
      let (annotations, _, h4) =
        >>=-eq-ok
          (compile_patterns selectors SetupError.annotation_pattern c.exclude_annotation_keys_regex)
          _ h3 in
      let (labels, _, h5) =
        >>=-eq-ok (compile_patterns selectors SetupError.label_pattern c.exclude_label_keys_regex) _
          h4 in
      let same : created_of selectors c f l annotations labels ≡ created = cc in
      ap (λ (x : Created). x.gatherer.redactor.encryptor) (sym same)

  create_validated-bare :
      (failure : Option String) (c : ConfigDynamic) (errors : List ValidationError)
      (created : Created)
      → create_validated selectors failure c errors ≡ ok created
      → created.gatherer.redactor.encryptor ≡ none
  unfolding create_validated
  create_validated-bare failure c [] created h = create-bare failure c created h
  create_validated-bare failure c (e ∷ es) created h = cc

  with_client-bare :
      (client failure : Option String) (c : ConfigDynamic) (created : Created)
      → with_client selectors client failure c ≡ ok created
      → created.gatherer.redactor.encryptor ≡ none
  unfolding with_client new_data_gatherer_with_client
  with_client-bare (some e) failure c created h = cc
  with_client-bare none failure c created h =
      create_validated-bare failure c (validate (parsers_of selectors) c) created h

  -- A new gatherer has no encryptor.
  pub new_data_gatherer-bare :
      (client_set dynamic_client : String → Option String) (failure : Option String)
      (c : ConfigDynamic) (created : Created)
      → new_data_gatherer selectors client_set dynamic_client failure c ≡ ok created
      → created.gatherer.redactor.encryptor ≡ none
  unfolding new_data_gatherer
  new_data_gatherer-bare client_set dynamic_client failure c created h =
      with_client-bare _ failure c created h
