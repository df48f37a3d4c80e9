-- ===== src/Keys/Scopes.antt =====
-- The scopes that a request for a key names.
use ferry_cli.Base.{
  ◌≡◌, refl, ◌∙◌, ap, sym, subst, Bool, true, false, ◌&&◌, ◌||◌, List, [], map, arith, all,
  Bool-cases, inl, inr,
}
use ferry_cli.Api.Target.{Bytes}
use ferry_cli.Creds.{is_empty}
use ferry_cli.Keys.{
  Formats, holds_bytes, known_scope, split_commas, Scan, scan_parts, no_scopes, scanned,
  parse_scopes, opened,
}
use ferry_cli.Keys.Scans.{
  distinct, AreScanned, keeps, any_unknown, scan_parts-AreScanned, scan_parts-holds, scan_parts-bad,
  unknown_held,
}

-- The scopes that are sent: some, all known, none twice, and those that stand between the commas.
pub record IsParsed (l : Formats) (raw : Bytes) (ss : List Bytes) : Type 0 where
  pub some_scope : no_scopes ss ≡ false
  pub all_known : all known_scope ss ≡ true
  pub none_twice : distinct ss ≡ true
  pub are_named :
      (x : Bytes)
      → is_empty x ≡ false
      → holds_bytes x ss ≡ holds_bytes x (map l.trim (split_commas raw))

abbrev no_scan : Scan
no_scan = record { out = []; bad = false }

none_scanned : AreScanned no_scan
unfolding all distinct
none_scanned = record { are_known = refl; are_distinct = refl }

start_holds : (x : Bytes) (k n : Bool) → (holds_bytes x [] || (k && n)) ≡ (k && n)
unfolding holds_bytes
start_holds x k n = refl

named :
    (x : Bytes) (ps : List Bytes)
    → any_unknown ps ≡ false
    → is_empty x ≡ false
    → (keeps x && holds_bytes x ps) ≡ holds_bytes x ps
named x ps e n = elim (Bool-cases (holds_bytes x ps)) [
  | inl h ↦ rw (h, unknown_held x ps e h n) refl
  | inr h ↦ rw h (ground arith)
]

scanned-IsParsed :
    (l : Formats) (raw : Bytes) (ss : List Bytes)
    → scanned (scan_parts l.trim (split_commas raw) no_scan) ≡ opened ss
    → IsParsed l raw ss
scanned-IsParsed l raw ss e =
    let s = scan_parts l.trim (split_commas raw) no_scan in
    let parts = map l.trim (split_commas raw) in
    let good : s.bad ≡ false = ground arith in
    let is : s.out ≡ ss = ground arith in
    let i = scan_parts-AreScanned l.trim (split_commas raw) no_scan none_scanned in
    let known : any_unknown parts ≡ false =
      sym (scan_parts-bad l.trim (split_commas raw) no_scan) ∙ good in
    record {
      some_scope = subst (λ x. no_scopes x ≡ false) is (ground arith);
      all_known = subst (λ x. all known_scope x ≡ true) is i.are_known;
      none_twice = subst (λ x. distinct x ≡ true) is i.are_distinct;
      are_named = λ x n.
          ap (holds_bytes x) (sym is)
          ∙ (scan_parts-holds l.trim (split_commas raw) no_scan x
              ∙ (start_holds x (keeps x) (holds_bytes x parts) ∙ named x parts known n));
    }

-- The scopes that `parseScopes` returns are known ones, at least one and none twice, and they are those
-- that stand between the commas, without blanks around them.
pub parse_scopes-IsParsed :
    (l : Formats) (raw : Bytes) (ss : List Bytes)
    → parse_scopes l raw ≡ opened ss
    → IsParsed l raw ss
unfolding parse_scopes
parse_scopes-IsParsed l raw ss e = elim (Bool-cases (is_empty (l.trim raw))) [
  | inl n ↦ absurd (ground arith)
  | inr n ↦ scanned-IsParsed l raw ss (ground arith)
]
