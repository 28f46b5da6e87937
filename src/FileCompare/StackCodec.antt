-- ===== src/FileCompare/StackCodec.antt =====
-- A codec that dumps the values of the library and parses what it dumps, to instantiate the parameter of the JSON library: a value is
-- dumped as instructions, in pairs of numbers, for a machine with a stack.
use sora_transport.Prelude.{
  ℕ, ◌≡◌, refl, ◌∙◌, ap, sym, true, false, Option, none, some, List, [], ◌∷◌, ◌++◌, append_assoc,
  append-nil, ◌==◌, if◌then◌else◌,
}
use sora_transport.Prelude.Int.{pos, negsuc}
use sora_transport.Prelude.Text.{Text}
use sora_transport.FileCompare.Json.{
  Json, null, boolean, number, text, array, object, Items, no_item, item, Fields, no_field, field,
  Codec,
}
use sora_transport.FileCompare.Json.Values.{is_value}
use sora_transport.FileCompare.Message.RoundTrip.{ReadsBack}

data Value : Type 0 where
  chars : Text → Value
  json : Json → Value
  some_items : Items → Value
  some_fields : Fields → Value

add_char : ℕ → List Value → List Value
add_char n (chars t ∷ stack) = chars (n ∷ t) ∷ stack
add_char n stack = stack

close_text : List Value → List Value
close_text (chars t ∷ stack) = json (text t) ∷ stack
close_text stack = stack

add_item : List Value → List Value
add_item (some_items xs ∷ json j ∷ stack) = some_items (item j xs) ∷ stack
add_item stack = stack

close_array : List Value → List Value
close_array (some_items xs ∷ stack) = json (array xs) ∷ stack
close_array stack = stack

add_field : List Value → List Value
add_field (some_fields fs ∷ json j ∷ chars k ∷ stack) = some_fields (field k j fs) ∷ stack
add_field stack = stack

close_object : List Value → List Value
close_object (some_fields fs ∷ stack) = json (object fs) ∷ stack
close_object stack = stack

push : ℕ → ℕ → List Value → List Value
unfolding add_char close_text add_item close_array add_field close_object
push op n stack =
    if op == 0
    then chars [] ∷ stack
    else if op == 1
    then add_char n stack
    else if op == 2
    then close_text stack
    else if op == 3
    then json null ∷ stack
    else if op == 4
    then json (boolean (n == 1)) ∷ stack
    else if op == 5
    then json (number (pos n)) ∷ stack
    else if op == 6
    then json (number (negsuc n)) ∷ stack
    else if op == 7
    then some_items no_item ∷ stack
    else if op == 8
    then add_item stack
    else if op == 9
    then close_array stack
    else if op == 10
    then some_fields no_field ∷ stack
    else if op == 11
    then add_field stack
    else close_object stack

run : Text → List Value → List Value
run [] stack = stack
run (op ∷ []) stack = stack
run (op ∷ n ∷ rest) stack = run rest (push op n stack)

dump_text : Text → Text
dump_text [] = 0 ∷ 0 ∷ []
dump_text (c ∷ t) = dump_text t ++ (1 ∷ c ∷ [])

mutual
  dump : Json → Text
  dump null = 3 ∷ 0 ∷ []
  dump (boolean false) = 4 ∷ 0 ∷ []
  dump (boolean true) = 4 ∷ 1 ∷ []
  dump (number (pos n)) = 5 ∷ n ∷ []
  dump (number (negsuc n)) = 6 ∷ n ∷ []
  dump (text t) = dump_text t ++ (2 ∷ 0 ∷ [])
  dump (array xs) = dump_items xs ++ (9 ∷ 0 ∷ [])
  dump (object fs) = dump_fields fs ++ (12 ∷ 0 ∷ [])

  dump_items : Items → Text
  dump_items no_item = 7 ∷ 0 ∷ []
  dump_items (item j xs) = dump j ++ (dump_items xs ++ (8 ∷ 0 ∷ []))

  dump_fields : Fields → Text
  dump_fields no_field = 10 ∷ 0 ∷ []
  dump_fields (field k j fs) = dump_text k ++ (dump j ++ (dump_fields fs ++ (11 ∷ 0 ∷ [])))

run-dump_text :
    (t rest : Text) (stack : List Value)
    → run (dump_text t ++ rest) stack ≡ run rest (chars t ∷ stack)
unfolding run push add_char dump_text
run-dump_text [] rest stack = refl
run-dump_text (c ∷ t) rest stack =
    rw (append_assoc (dump_text t) (1 ∷ c ∷ []) rest) (run-dump_text t (1 ∷ c ∷ rest) stack)

mutual
  unfolding run push add_char close_text add_item close_array add_field close_object dump dump_items
      dump_fields

  run-dump :
      (j : Json) (rest : Text) (stack : List Value)
      → run (dump j ++ rest) stack ≡ run rest (json j ∷ stack)
  run-dump null rest stack = refl
  run-dump (boolean false) rest stack = refl
  run-dump (boolean true) rest stack = refl
  run-dump (number (pos n)) rest stack = refl
  run-dump (number (negsuc n)) rest stack = refl
  run-dump (text t) rest stack =
      rw (append_assoc (dump_text t) (2 ∷ 0 ∷ []) rest) (run-dump_text t (2 ∷ 0 ∷ rest) stack)
  run-dump (array xs) rest stack =
      rw (append_assoc (dump_items xs) (9 ∷ 0 ∷ []) rest) (run-dump_items xs (9 ∷ 0 ∷ rest) stack)
  run-dump (object fs) rest stack =
      rw (append_assoc (dump_fields fs) (12 ∷ 0 ∷ []) rest)
        (run-dump_fields fs (12 ∷ 0 ∷ rest) stack)

  run-dump_items :
      (xs : Items) (rest : Text) (stack : List Value)
      → run (dump_items xs ++ rest) stack ≡ run rest (some_items xs ∷ stack)
  run-dump_items no_item rest stack = refl
  run-dump_items (item j xs) rest stack =
      rw (append_assoc (dump j) (dump_items xs ++ (8 ∷ 0 ∷ [])) rest) (
        run-dump j ((dump_items xs ++ (8 ∷ 0 ∷ [])) ++ rest) stack
        ∙ rw (append_assoc (dump_items xs) (8 ∷ 0 ∷ []) rest)
            (run-dump_items xs (8 ∷ 0 ∷ rest) (json j ∷ stack)))

  run-dump_fields :
      (fs : Fields) (rest : Text) (stack : List Value)
      → run (dump_fields fs ++ rest) stack ≡ run rest (some_fields fs ∷ stack)
  run-dump_fields no_field rest stack = refl
  run-dump_fields (field k j fs) rest stack =
      rw (append_assoc (dump_text k) (dump j ++ (dump_fields fs ++ (11 ∷ 0 ∷ []))) rest) (
        run-dump_text k ((dump j ++ (dump_fields fs ++ (11 ∷ 0 ∷ []))) ++ rest) stack
        ∙ rw (append_assoc (dump j) (dump_fields fs ++ (11 ∷ 0 ∷ [])) rest) (
            run-dump j ((dump_fields fs ++ (11 ∷ 0 ∷ [])) ++ rest) (chars k ∷ stack)
            ∙ rw (append_assoc (dump_fields fs) (11 ∷ 0 ∷ []) rest)
                (run-dump_fields fs (11 ∷ 0 ∷ rest) (json j ∷ chars k ∷ stack))))

abbrev top : List Value → Option Json
top (json j ∷ []) = some j
top _ = none

pub stack_codec : Codec
stack_codec = record {
  dump = λ j. if is_value j then some (dump j) else none;
  parse = λ t. top (run t []);
}

pub stack_codec-ReadsBack : ReadsBack stack_codec
unfolding run stack_codec
stack_codec-ReadsBack j h =
    (dump j, rw h refl, ap top (ap (λ t. run t []) (sym (append-nil (dump j))) ∙ run-dump j [] []))
