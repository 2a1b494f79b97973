-- ===== src/Board/Fits.antt =====
-- What `render_markdown` returns.
use cicd_squabbler.Prelude.{
  ap, ◌*◌, ◌∙◌, ℕ, zero, suc, ◌/◌, ◌^◌, ◌≤◌, ◌<◌, ◌≡◌, refl, ◌⊎◌, inl, inr, true, false, ◌||◌, ◌==◌,
  ==_iff, leb, Bool-cases, Option, none, some, arith, Str, str_len, if◌then◌else◌,
}
use cicd_squabbler.Board.{Board}
use cicd_squabbler.Board.Render.{render_with_cap, render_from, render_markdown}

-- The text of a board, cut at some number of rows. It fits, or everything that can be cut was cut.
abbrev pub Renders : Board → ℕ → Option Str → Type 0
Renders board max_bytes none = ⊥
Renders board max_bytes (some text) =
    ((cap : ℕ) × ((cap ≤ 400) × (text ≡ render_with_cap board cap)))
    × ((str_len text ≤ max_bytes) ⊎ (text ≡ render_with_cap board 0))

-- One round: the text is returned, or what the later rounds return.
one_round :
    (board : Board) (max_bytes per_page : ℕ) (text : Str) (rest : Option Str)
    → per_page ≤ 400
    → text ≡ render_with_cap board per_page
    → ((per_page == 0) ≡ false → Renders board max_bytes rest)
    → Renders board max_bytes
        (if leb (str_len text) max_bytes || per_page == 0 then some text else rest)
one_round board max_bytes per_page text rest h e k =
    elim (Bool-cases (leb (str_len text) max_bytes)) [
      | inl fits ↦ rw fits ((per_page, (h, e)), inl (leb_le (str_len text) max_bytes fits))
      | inr long ↦ elim (Bool-cases (per_page == 0)) [
        | inl z ↦
            rw (long, z)
              ((per_page, (h, e)), inr (e ∙ ap (render_with_cap board) ((==_iff per_page 0).0 z)))
        | inr n ↦ rw (long, n) (k n)
      ]
    ]
  where
    leb_le : (a b : ℕ) → leb a b ≡ true → a ≤ b
    leb_le a b t = ground arith

-- A number of rows below a power of two is zero after that many halvings.
half-lt : (n p : ℕ) → n < 2 * p → n / 2 < p
half-lt n p h = omega arith

render_from-Renders :
    (board : Board) (max_bytes fuel per_page : ℕ)
    → per_page ≤ 400
    → per_page < 2 ^ fuel
    → Renders board max_bytes (render_from board max_bytes (suc fuel) per_page)
unfolding render_from
render_from-Renders board max_bytes zero per_page h k =
    one_round board max_bytes per_page (render_with_cap board per_page) none h refl
      (λ n. ground arith)
render_from-Renders board max_bytes (suc fuel) per_page h k =
    one_round board max_bytes per_page (render_with_cap board per_page)
      (render_from board max_bytes (suc fuel) (per_page / 2)) h refl
      (λ n.
        render_from-Renders board max_bytes fuel (per_page / 2) (omega arith)
          (half-lt per_page (2 ^ fuel) (omega arith)))

-- Rendering ends within its rounds, for every board and every limit: the text is the board's, cut at
-- no more than 400 rows, and fits the limit, or has every list cut to nothing.
pub render_markdown-Renders :
    (board : Board) (max_bytes : ℕ) → Renders board max_bytes (render_markdown board max_bytes)
unfolding render_markdown
render_markdown-Renders board max_bytes =
    render_from-Renders board max_bytes 9 400 (omega arith) (omega arith)
