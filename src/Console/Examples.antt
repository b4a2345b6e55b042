-- ===== src/Console/Examples.antt =====
-- The console's texts: tests.
use bfc_tunnel.Base.{◌≡◌, ◌↔◌, refl, true, false, none, some, List, [], ◌∷◌, ◌++◌, arith, All}
use bfc_tunnel.Console.Text.{Bytes, codes, to_string, is_space}
use bfc_tunnel.Console.Base64.{base64_encode, base64_decode}
use bfc_tunnel.Console.Base64.RoundTrip.{base64_decode-encode}
use bfc_tunnel.Console.Address.{parse_node_id, format_node_id, split_host_port}
use bfc_tunnel.Console.Address.RoundTrip.{parse_node_id-format_node_id}
use bfc_tunnel.Console.Tokens.{Filter, split_csv, join_csv, parse_command, row_matches}
use bfc_tunnel.Console.Tokens.Split.{IsValue, split_csv-join_csv}
use bfc_tunnel.Console.Tokens.Matching.{IsMet, row_matches-IsMet}
use bfc_tunnel.Console.Table.{frame_reply, render_table, status_ok}
use bfc_tunnel.Console.Table.Reply.{read_reply, read_reply-render_table}

encoded : base64_encode (codes "Many") ≡ codes "TWFueQ=="
unfolding base64_encode
encoded = refl

refused : base64_decode (codes "TW!u") ≡ none
unfolding base64_decode
refused = refl

base64_decode-encode_example : base64_decode (base64_encode (77 ∷ 255 ∷ [])) ≡ some (77 ∷ 255 ∷ [])
base64_decode-encode_example = base64_decode-encode (77 ∷ 255 ∷ []) (omega arith, (omega arith, tt))

spaced_id : parse_node_id (codes " 10 : 0:0:+7 and more") ≡ some 167772167
unfolding parse_node_id
spaced_id = refl

too_large : parse_node_id (codes "1:2:3:256") ≡ none
unfolding parse_node_id
too_large = refl

parse_node_id-format_node_id_example :
    (parse_node_id (format_node_id 167772167) ≡ some 167772167)
    × (parse_node_id (to_string 167772167) ≡ some 167772167)
parse_node_id-format_node_id_example = parse_node_id-format_node_id 167772167 (omega arith)

no_port : split_host_port (codes "10.0.0.1:65536") ≡ none
unfolding split_host_port
no_port = refl

loose_list : split_csv (codes " AES128,,CHACHA20 ,") ≡ codes "AES128" ∷ codes "CHACHA20" ∷ []
unfolding split_csv
loose_list = refl

two_values : All IsValue (codes "AES128" ∷ codes "NONE" ∷ [])
unfolding is_space
two_values = ground arith

split_csv-join_csv_example :
    split_csv (join_csv (codes "AES128" ∷ codes "NONE" ∷ [])) ≡ codes "AES128" ∷ codes "NONE" ∷ []
split_csv-join_csv_example = split_csv-join_csv (codes "AES128" ∷ codes "NONE" ∷ []) two_values

listing :
    parse_command (codes "/route list +target=4 ttl=1 ttl=2 all")
    ≡ some (record {
      path = codes "/route";
      verb = codes "list";
      args = (codes "ttl", codes "1") ∷ [];
      filters = record { include = true; key = codes "target"; value = codes "4" } ∷ [];
      bare = codes "all" ∷ [];
    })
unfolding parse_command
listing = refl

no_verb : parse_command (codes "/route") ≡ none
unfolding parse_command
no_verb = refl

abbrev test_row : List (Bytes × Bytes)
test_row = (codes "target", codes "4") ∷ (codes "hops", codes "2") ∷ []

abbrev test_filters : List Filter
test_filters =
    record { include = true; key = codes "target"; value = codes "4" }
    ∷ record { include = false; key = codes "hops"; value = codes "3" }
    ∷ []

row_matches-IsMet_example :
    (row_matches test_row test_filters ≡ true) ↔ All (IsMet test_row) test_filters
row_matches-IsMet_example = row_matches-IsMet test_row test_filters

ok_text : status_ok ≡ codes "| STATUS |\n| OK |"
unfolding status_ok
ok_text = refl

read_reply-render_table_example :
    let body = render_table (codes "A" ∷ []) ((codes "x" ∷ []) ∷ []) in
    read_reply (frame_reply body ++ codes "| B |") ≡ some (body, codes "| B |")
read_reply-render_table_example =
    read_reply-render_table (codes "A" ∷ []) ((codes "x" ∷ []) ∷ []) (codes "| B |")
      ((refl, tt), tt) (((refl, tt), tt), tt)
