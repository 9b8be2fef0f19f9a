-- ===== src/K8sDynamic/JsonFields/Model.antt =====
-- The JSON values implement the interface.
use jetstack_secure.K8sDynamic.Values.{obj}
use jetstack_secure.K8sDynamic.NestedFields.{NestedFields}
use jetstack_secure.K8sDynamic.JsonFields.{get_in, set_in, remove_in, write_in}
use jetstack_secure.K8sDynamic.JsonFields.Reads.{get_in-end, get_in-append, get_in-below}
use jetstack_secure.K8sDynamic.JsonFields.Writes.{
  set_self, set_apart, set_in-top, remove_self, remove_apart, write_self, write_apart,
}

unfoldable pub json_fields : NestedFields
unfolding get_in set_in remove_in write_in
json_fields = record {
  nested_field = λ o p. get_in (obj o) p;
  set_nested_field = set_in;
  remove_nested_field = remove_in;
  write_through = write_in;
  nested_field-end = get_in-end;
  nested_field-append = λ o p m k h. get_in-append (obj o) p m k h;
  nested_field-below = λ o p k v h. get_in-below (obj o) p k v h;
  set_nested_field-top = set_in-top;
  nested_field-set_self = set_self;
  nested_field-set_apart = set_apart;
  nested_field-remove_self = remove_self;
  nested_field-remove_apart = remove_apart;
  nested_field-write_self = write_self;
  nested_field-write_apart = write_apart;
}
