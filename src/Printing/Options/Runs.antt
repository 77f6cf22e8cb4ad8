-- ===== src/Printing/Options/Runs.antt =====
-- Pages that are selected in ascending order.
use printvendo_backend.Prelude.{
  ltb, ◌==◌, All, All-map, All-append, ℕ, zero, suc, ◌+◌, ◌≤◌, ◌<◌, ◌≡◌, refl, sym, ap, ◌∙◌, false,
  List, [], ◌∷◌, ◌++◌, arith,
}
use printvendo_backend.Printing.Options.{insert_page, select_range, page_numbers}

-- Pages below a page.
abbrev pub AreBelow : ℕ → List ℕ → Type 0
AreBelow p ps = All (λ q. q < p) ps

pub below_later : (p r : ℕ) (ps : List ℕ) → p ≤ r → AreBelow p ps → AreBelow r ps
below_later p r ps l h = All-map (λ q. q < p) (λ q. q < r) ps (λ q k. omega arith) h

pub insert_page-last : (p : ℕ) (ps : List ℕ) → AreBelow p ps → insert_page p ps ≡ ps ++ p ∷ []
unfolding insert_page
insert_page-last p [] h = refl
insert_page-last p (q ∷ qs) h =
    let first = h.0 in
    let before : ltb p q ≡ false = ground arith in
    let other : (p == q) ≡ false = ground arith in
    rw (before, other) (ap (◌∷◌ q) (insert_page-last p qs h.1))

pub append_assoc : (xs ys zs : List ℕ) → (xs ++ ys) ++ zs ≡ xs ++ (ys ++ zs)
append_assoc [] ys zs = refl
append_assoc (x ∷ xs) ys zs = ap (◌∷◌ x) (append_assoc xs ys zs)

pub append_nothing : (xs : List ℕ) → xs ++ [] ≡ xs
append_nothing [] = refl
append_nothing (x ∷ xs) = ap (◌∷◌ x) (append_nothing xs)

pub snoc-AreBelow : (p : ℕ) (ps : List ℕ) → AreBelow p ps → AreBelow (p + 1) (ps ++ p ∷ [])
snoc-AreBelow p ps h =
    All-append (λ q. q < p + 1) ps (p ∷ []) (below_later p (p + 1) ps (omega arith) h)
      (omega arith, tt)

-- A range above all that is selected comes behind it.
pub select_range-last :
    (start many : ℕ) (ps : List ℕ)
    → AreBelow start ps
    → select_range start many ps ≡ ps ++ page_numbers start many
unfolding select_range page_numbers
select_range-last start zero ps h = sym (append_nothing ps)
select_range-last start (suc many) ps h = rw (insert_page-last start ps h) (
    select_range-last (suc start) many (ps ++ start ∷ []) (
      below_later (start + 1) (suc start) (ps ++ start ∷ []) (omega arith)
        (snoc-AreBelow start ps h))
    ∙ append_assoc ps (start ∷ []) (page_numbers (suc start) many))

pub page_numbers-AreBelow :
    (start many limit : ℕ) → start + many ≤ limit → AreBelow limit (page_numbers start many)
unfolding page_numbers
page_numbers-AreBelow start zero limit l = tt
page_numbers-AreBelow start (suc many) limit l =
    (omega arith, page_numbers-AreBelow (suc start) many limit (omega arith))

pub page_numbers-snoc :
    (start many : ℕ)
    → page_numbers start (suc many) ≡ page_numbers start many ++ (start + many) ∷ []
unfolding page_numbers
page_numbers-snoc start zero = ap (λ z. z ∷ []) (omega arith)
page_numbers-snoc start (suc many) = ap (◌∷◌ start) (
    page_numbers-snoc (suc start) many
    ∙ ap (λ z. page_numbers (suc start) many ++ z ∷ []) (omega arith))
