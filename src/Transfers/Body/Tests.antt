-- ===== src/Transfers/Body/Tests.antt =====
-- A document and pairs of metadata, and each property at them.
use ferry_cli.Base.{◌≡◌, refl, true, false, none, some, [], ◌∷◌, ◌++◌}
use ferry_cli.Api.Meta.{codes}
use ferry_cli.Api.Target.{Bytes}
use ferry_cli.Noun.{opened}
use ferry_cli.Transfers.Body.{
  TransferSide, BodyFlags, Reads, build_body, parse_metadata, read_body, trim_trailing_newline,
  changed_among, add_pairs, cut, with_entry, no_metadata, Metadata,
}
use ferry_cli.Transfers.Body.Metadata.{IsObject, parse_metadata-IsObject}
use ferry_cli.Transfers.Body.Forwards.{IsForwarded, build_body-IsForwarded}

abbrev document : Bytes
document = codes "{\"a\": 1}"

-- No flag is typed, and every source holds the document and a newline.
abbrev reads : Reads
reads = record {
  changed = λ n. false;
  contents = λ s. some (document ++ (10 ∷ []));
  is_utf8 = λ b. true;
  object_keys = λ b. some 1;
  marshal = λ r. none;
  trim = λ b. b;
}

abbrev no_side : TransferSide
no_side = record {
  type = "";
  id = "";
  asset = "";
  network = "";
  account_holder = "";
  blockchain_address = "";
  cash_location_id = "";
  cash_location_reference = "";
}

abbrev flags : BodyFlags
flags = record {
  customer = "";
  from = no_side;
  to = no_side;
  amount = "";
  amount_side = "source";
  sponsor_gas = false;
  metadata = [];
  body = "-";
}

forwards : build_body reads flags ≡ opened document
unfolding build_body read_body trim_trailing_newline changed_among
forwards = refl

build_body-IsForwarded_example : IsForwarded reads flags document
build_body-IsForwarded_example = build_body-IsForwarded reads flags document refl forwards

abbrev entries : Metadata
entries = with_entry (with_entry no_metadata (codes "a") (codes "1=2")) (codes "b") []

parses : parse_metadata (codes "a=1=2" ∷ codes "b=" ∷ []) ≡ opened entries
unfolding parse_metadata add_pairs cut with_entry
parses = refl

parse_metadata-IsObject_example : IsObject (codes "a=1=2" ∷ codes "b=" ∷ []) entries
parse_metadata-IsObject_example =
    parse_metadata-IsObject (codes "a=1=2" ∷ codes "b=" ∷ []) entries parses
