-- ===== src/Lexer/Follows.antt =====
-- fpp_lexer/src/lexer.rs: what `next` does at a character, between two tokens.
use fpp_tools.Prelude.{
  append_assoc, ℕ, ◌+◌, ◌-◌, ◌≤◌, ◌<◌, ◌≡◌, ◌↔◌, refl, sym, ap, subst, ◌∙◌, Bool, true, false, List,
  [], ◌∷◌, ◌++◌, some, All, arith,
}
use fpp_tools.Lexer.Chars.{byte_len, byte_len-append, is_identifier_first}
use fpp_tools.Lexer.Keywords.{KeywordKind}
use fpp_tools.Lexer.Keywords.Search.{as_str, get_iff}
use fpp_tools.Lexer.Token.{TokenKind, Token, keyword}
use fpp_tools.Lexer.Cursor.{Lexer, read_char, skip, reset_token}
use fpp_tools.Lexer.Fetch.{fetch_from}
use fpp_tools.Lexer.Next.{yielded, slice, next, tokens}
use fpp_tools.Lexer.Lexes.{
  Lexes, Inside, Lexes-trans, Lexes-skip, Lexes-started, skip-advances, All-append,
  All-Inside-widen,
}
use fpp_tools.Lexer.Lexes.Fetched.{fetch_from-Fetches}
use fpp_tools.Lexer.Steps.{bump-char, fetch_token-lem, next-lem, as_str-identifier, identifier_read}
use fpp_tools.Lexer.Slices.{slice-append, fetch_from-raw, FinishedKind, finish_token-FinishedKind}

-- The kind of a token is a keyword exactly where its text is the spelling of that keyword.
abbrev pub Spelled : TokenKind → List ℕ → Type 0
Spelled kind text = (k : KeywordKind) → (kind ≡ keyword k) ↔ (as_str k ≡ some text)

-- The tokens cut the text into parts that are not empty, each as long as its token says.
abbrev pub Tiles : (TokenKind → List ℕ → Type 0) → List Token → List ℕ → Type 0
Tiles P [] content = content ≡ []
Tiles P (token ∷ tokens) content =
    (text : List ℕ) × ((rest : List ℕ) × (content ≡ text ++ rest)
      × (token.len ≡ byte_len text)
      × (1 ≤ token.len)
      × P token.kind text
      × Tiles P tokens rest)

-- The state between two tokens.
pub record Between (content : List ℕ) (s : Lexer) : Type 0 where
  pub done : List ℕ
  pub same : s.content ≡ content
  pub splits : content ≡ done ++ s.chars
  pub bytes : s.pos ≡ byte_len done
  pub errors_inside : All (Inside 0 (byte_len content)) s.errors
  pub going : s.stalled ≡ false

-- What `next` does at a character.
pub record Follows (x : ℕ → Bool) (content : List ℕ) (s : Lexer) : Type 0 where
  pub token : Token
  pub after : Lexer
  pub yields : next x s ≡ yielded token after
  pub text : List ℕ
  pub reads : s.chars ≡ text ++ after.chars
  pub counts : token.len ≡ byte_len text
  pub positive : 1 ≤ token.len
  pub between : Between content after
  pub spelled : Spelled token.kind text

-- The text of a token is the spelling of the keyword that it is.
pub raw-Spelled :
    (x : ℕ → Bool) (c : ℕ) (cs : List ℕ) (r : Lexer) (text : List ℕ)
    → r.reserved_word ≡ false
    → r.chars ≡ c ∷ cs
    → let raw = fetch_from x (read_char c cs).char (skip r) in
      r.chars ≡ text ++ raw.1.chars → (fin : FinishedKind raw.0 raw.1 text) → Spelled fin.kind text
raw-Spelled x c cs r text free e reads fin k =
    let raw = fetch_from x (read_char c cs).char (skip r) in
    let (found, (spelling, spelled)) = get_iff k in
    (
      λ is_k. (found text).0 ((fin.keyword_of k).0 is_k).2,
      λ is_text.
          let (c', (cs', starts, letter)) = as_str-identifier k in
          let same_text : text ≡ c' ∷ cs' = cc in
          let same_chars = subst (λ t. r.chars ≡ t ++ raw.1.chars) same_text reads in
          let same : c' ≡ c = cc in
          let (ident, plain) =
            identifier_read x c cs r (subst (λ d. is_identifier_first d ≡ true) same letter) free in
          (fin.keyword_of k).1 (ident, plain, (found text).1 is_text),
    )

pub Between-Lexes :
    (content : List ℕ) (s r t : Lexer)
    → Between content s
    → r.chars ≡ s.chars
    → r.pos ≡ s.pos
    → r.content ≡ s.content
    → r.errors ≡ s.errors
    → r.stalled ≡ s.stalled
    → Lexes r t
    → Between content t
Between-Lexes content s r t h chars pos same errors going all = record {
  going = all.keeps_going ∙ (going ∙ h.going);
  done = h.done ++ all.text;
  same = all.keeps_content ∙ (same ∙ h.same);
  splits =
      h.splits
      ∙ (ap (λ cs. h.done ++ cs) (sym chars ∙ all.reads)
          ∙ sym (append_assoc h.done all.text t.chars));
  bytes = omega (arith, all.counts, pos, h.bytes, byte_len-append h.done all.text);
  errors_inside =
      let total = ap byte_len h.splits in
      let left = ap byte_len chars in
      let fits : r.pos + byte_len r.chars ≤ byte_len content =
        omega (arith, total, left, pos, h.bytes, byte_len-append h.done s.chars) in
      subst (All (Inside 0 (byte_len content)))
        (ap (λ es. es ++ all.found) (sym errors) ∙ sym all.appends)
        (All-append (Inside 0 (byte_len content)) s.errors all.found h.errors_inside
          (All-Inside-widen _ _ _ all.found fits all.inside));
}

pub next-Follows :
    (x : ℕ → Bool) (content : List ℕ) (s : Lexer) (c : ℕ) (cs : List ℕ)
    → Between content s
    → s.chars ≡ c ∷ cs
    → Follows x content s
unfolding reset_token
next-Follows x content s c cs h e =
    let r = reset_token s in
    let raw = fetch_from x (read_char c cs).char (skip r) in
    let first_read = Lexes-skip r in
    let started : (skip r).offset < (skip r).pos =
      omega (arith, first_read.keeps_offset, skip-advances r c cs e) in
    let fetch = (fetch_from-Fetches x (read_char c cs).char (skip r) started).lexes in
    let all = Lexes-trans first_read fetch in
    let sliced : slice raw.1.content raw.1.offset raw.1.pos ≡ some all.text =
      let base = slice-append h.done all.text raw.1.chars in
      let content_same = all.keeps_content in
      let offset_same = all.keeps_offset in
      let pos_same = all.counts in
      let reads = all.reads in
      let same = h.same in let splits = h.splits in let bytes = h.bytes in cc in
    let fin = finish_token-FinishedKind raw.0 raw.1 all.text (fetch_from-raw x _ (skip r)) sliced in
    record {
      token = record { kind = fin.kind; len = raw.1.pos - raw.1.offset };
      after = raw.1;
      yields = next-lem x s raw.0 raw.1 (fetch_token-lem x r _ (bump-char r c cs e)) ∙ fin.yields;
      text = all.text;
      reads = all.reads;
      counts = omega (arith, all.counts, all.keeps_offset);
      positive = omega (arith, Lexes-started fetch started);
      between = Between-Lexes content s r raw.1 h refl refl refl refl refl all;
      spelled = raw-Spelled x c cs r all.text refl e all.reads fin;
    }
