-- ===== src/Persistence/Listing/Pages.antt =====
-- What the pages of `list_open_workshops` show, of rows in the order of the cursors.
use dragon_shift.Common.{
  ℕ, zero, suc, ◌-◌, ◌*◌, ◌≤◌, min, ◌≡◌, refl, sym, ap, ◌∙◌, subst, Bool, true, false, String, List,
  [], ◌∷◌, ◌++◌, All, arith, Bool-cases, inl, inr, filter_by, length, take, drop, ltb, lt→ltb,
  if◌then◌else◌, str_eq, eq_iff,
}
use dragon_shift.Common.Text.Order.{lt, lt_irrefl, lt_asym}
use dragon_shift.Persistence.Listing.{
  OpenWorkshopRecord, OpenWorkshopCursor, OpenWorkshopsPaging, first, after, before, is_older,
  is_newer, select_page,
}

abbrev pub cursor_of : OpenWorkshopRecord → OpenWorkshopCursor
cursor_of row = record { created_at = row.created_at; session_code = row.session_code }

str_eq_sym : (s t : String) → str_eq s t ≡ str_eq t s
str_eq_sym s t = elim (Bool-cases (str_eq s t)) [
  | inl e ↦ e ∙ sym ((eq_iff t s).1 (sym ((eq_iff s t).0 e)))
  | inr e ↦ elim (Bool-cases (str_eq t s)) [
    | inl f ↦ cc ((eq_iff s t).1 (sym ((eq_iff t s).0 f)))
    | inr f ↦ e ∙ sym f
  ]
]

module _ {ℓ} {A : Type ℓ} (p : A → Bool) where
  filter-All : (xs : List A) → All (λ x. p x ≡ true) xs → filter_by p xs ≡ xs
  filter-All [] h = refl
  filter-All (x ∷ xs) h = rw h.0 (ap (λ t. x ∷ t) (filter-All xs h.1))

  filter-none : (xs : List A) → All (λ x. p x ≡ false) xs → filter_by p xs ≡ []
  filter-none [] h = refl
  filter-none (x ∷ xs) h = rw h.0 (filter-none xs h.1)

  filter-append : (xs ys : List A) → filter_by p (xs ++ ys) ≡ filter_by p xs ++ filter_by p ys
  filter-append [] ys = refl
  filter-append (x ∷ xs) ys = elim (Bool-cases (p x)) [
    | inl e ↦ rw e (ap (λ t. x ∷ t) (filter-append xs ys))
    | inr e ↦ rw e (filter-append xs ys)
  ]

module _ {ℓ} {A : Type ℓ} where
  append-nil : (xs : List A) → xs ++ [] ≡ xs
  append-nil [] = refl
  append-nil (x ∷ xs) = ap (λ t. x ∷ t) (append-nil xs)

  append_assoc : (xs ys zs : List A) → (xs ++ ys) ++ zs ≡ xs ++ (ys ++ zs)
  append_assoc [] ys zs = refl
  append_assoc (x ∷ xs) ys zs = ap (λ t. x ∷ t) (append_assoc xs ys zs)

All-mono {ℓ κ μ} :
    {A : Type ℓ} {P : A → Type κ} {Q : A → Type μ} (xs : List A)
    → ((x : A) → P x → Q x)
    → All P xs
    → All Q xs
All-mono [] f h = tt
All-mono (x ∷ xs) f h = (f x h.0, All-mono xs f h.1)

module _ (normalize : String → String) where
  -- A row stands after another.
  abbrev pub Older : OpenWorkshopRecord → OpenWorkshopRecord → Type 0
  Older x y = is_older normalize (cursor_of x) y ≡ true

  -- Every row is older than those before it.
  abbrev pub Descending : List OpenWorkshopRecord → Type 0
  Descending [] = Unit
  Descending (x ∷ xs) = All (Older x) xs × Descending xs

  older_irrefl : (x : OpenWorkshopRecord) → is_older normalize (cursor_of x) x ≡ false
  unfolding is_older
  older_irrefl x = ground (arith, lt_irrefl (normalize x.created_at), lt_irrefl x.session_code)

  older_asym :
      (x y : OpenWorkshopRecord)
      → is_older normalize (cursor_of x) y ≡ true
      → is_older normalize (cursor_of y) x ≡ false
  unfolding is_older
  older_asym x y h = ground (
    arith,
    lt_asym (normalize y.created_at) (normalize x.created_at),
    lt_asym x.session_code y.session_code,
    str_eq_sym (normalize y.created_at) (normalize x.created_at),
    lt_equal (normalize y.created_at) (normalize x.created_at),
    lt_equal (normalize x.created_at) (normalize y.created_at),
  )
    where
      lt_equal : (s t : String) → str_eq s t ≡ true → lt s t ≡ false
      lt_equal s t e = subst (λ u. lt s u ≡ false) ((eq_iff s t).0 e) (lt_irrefl s)

  newer-older :
      (x y : OpenWorkshopRecord)
      → is_newer normalize (cursor_of x) y ≡ is_older normalize (cursor_of y) x
  unfolding is_older is_newer
  newer-older x y = rw (str_eq_sym (normalize y.created_at) (normalize x.created_at)) refl

  -- The rows before a row are newer, those after it older.
  before-Older :
      (pre : List OpenWorkshopRecord) (x : OpenWorkshopRecord) (post : List OpenWorkshopRecord)
      → Descending (pre ++ x ∷ post)
      → All (λ y. Older y x) pre × Descending (x ∷ post)
  before-Older [] x post d = (tt, d)
  before-Older (y ∷ pre) x post d =
      let (newer, rest) = before-Older pre x post d.1 in ((All-middle pre d.0, newer), rest)
    where
      All-middle : (ys : List OpenWorkshopRecord) → All (Older y) (ys ++ x ∷ post) → Older y x
      All-middle [] h = h.0
      All-middle (z ∷ ys) h = All-middle ys h.1

  older-rows :
      (pre : List OpenWorkshopRecord) (x : OpenWorkshopRecord) (post : List OpenWorkshopRecord)
      → Descending (pre ++ x ∷ post)
      → filter_by (is_older normalize (cursor_of x)) (pre ++ x ∷ post) ≡ post
  older-rows pre x post d =
      let older = is_older normalize (cursor_of x) in
      let (newer, (rest, tail)) = before-Older pre x post d in
      let kept : filter_by older (x ∷ post) ≡ post =
        rw (older_irrefl x) (filter-All older post rest) in
      filter-append older pre (x ∷ post)
      ∙ ap (λ t. t ++ filter_by older (x ∷ post))
          (filter-none older pre (All-mono pre (λ y h. older_asym y x h) newer))
      ∙ kept

  newer-rows :
      (pre : List OpenWorkshopRecord) (x : OpenWorkshopRecord) (post : List OpenWorkshopRecord)
      → Descending (pre ++ x ∷ post)
      → filter_by (is_newer normalize (cursor_of x)) (pre ++ x ∷ post) ≡ pre
  newer-rows pre x post d =
      let is_new = is_newer normalize (cursor_of x) in
      let (newer, (rest, tail)) = before-Older pre x post d in
      let none_left : filter_by is_new (x ∷ post) ≡ [] =
        rw (newer-older x x, older_irrefl x)
          (filter-none is_new post
            (All-mono post (λ y h. newer-older x y ∙ older_asym x y h) rest)) in
      filter-append is_new pre (x ∷ post)
      ∙ ap (λ t. t ++ filter_by is_new (x ∷ post))
          (filter-All is_new pre (All-mono pre (λ y h. newer-older x y ∙ h) newer))
      ∙ ap (λ t. pre ++ t) none_left
      ∙ append-nil pre

-- Of rows that each are older, by the cursors' order, than those before them: the page after the
-- cursor of a row has the first four of the rows that follow it, and says that there are more after
-- it exactly if more than four follow; the page before the cursor has the last four of the rows that
-- precede it, and says that there are more before it exactly if more than four precede.
pub select_page_around :
    (normalize : String → String) (pre : List OpenWorkshopRecord) (x : OpenWorkshopRecord)
    (post : List OpenWorkshopRecord)
    → Descending normalize (pre ++ x ∷ post)
    → let next = select_page normalize (after (cursor_of x)) (pre ++ x ∷ post) in
      let previous = select_page normalize (before (cursor_of x)) (pre ++ x ∷ post) in
      (next.rows ≡ take 4 post)
      × (next.has_more_after ≡ ltb 4 (length post))
      × (previous.rows ≡ drop (length pre - min 4 (length pre)) pre)
      × (previous.has_more_before ≡ ltb 4 (length pre))
unfolding select_page
select_page_around normalize pre x post d =
    let older = older-rows normalize pre x post d in
    let newer = newer-rows normalize pre x post d in
    (
      ap (λ rows. take 4 rows) older,
      ap (λ (rows : List OpenWorkshopRecord). ltb 4 (length rows)) older,
      ap (λ (rows : List OpenWorkshopRecord). drop (length rows - min 4 (length rows)) rows) newer,
      ap (λ (rows : List OpenWorkshopRecord). ltb 4 (length rows)) newer,
    )

-- The cursor after a page: that of its last row.
abbrev pub last_cursor : OpenWorkshopsPaging → List OpenWorkshopRecord → OpenWorkshopsPaging
last_cursor paging [] = paging
last_cursor paging (x ∷ []) = after (cursor_of x)
last_cursor paging (x ∷ (y ∷ rows)) = last_cursor paging (y ∷ rows)

-- A client that asks for page after page as long as there are more.
unfoldable pub walk :
    (String → String) → ℕ → OpenWorkshopsPaging → List OpenWorkshopRecord → List OpenWorkshopRecord
walk normalize zero paging rows = []
walk normalize (suc fuel) paging rows =
    let page = select_page normalize paging rows in
    let rest = walk normalize fuel (last_cursor paging page.rows) rows in
    page.rows ++ (if page.has_more_after then rest else [])

module _ (normalize : String → String) (rows : List OpenWorkshopRecord)
    (d : Descending normalize rows) where
  -- A page of the first four of some rows.
  abbrev Shows : OpenWorkshopsPaging → List OpenWorkshopRecord → Type 0
  Shows paging rest =
      ((select_page normalize paging rows).rows ≡ take 4 rest)
      × ((select_page normalize paging rows).has_more_after ≡ ltb 4 (length rest))

  after-Shows :
      (pre : List OpenWorkshopRecord) (x : OpenWorkshopRecord) (post : List OpenWorkshopRecord)
      → rows ≡ pre ++ x ∷ post
      → Shows (after (cursor_of x)) post
  after-Shows pre x post e =
      let (shown, more, q, r) =
        select_page_around normalize pre x post (subst (λ t. Descending normalize t) e d) in
      subst
        (λ t.
          ((select_page normalize (after (cursor_of x)) t).rows ≡ take 4 post)
          × ((select_page normalize (after (cursor_of x)) t).has_more_after ≡ ltb 4 (length post)))
        (sym e) (shown, more)

  walk-all :
      (fuel : ℕ) (paging : OpenWorkshopsPaging) (pre rest : List OpenWorkshopRecord)
      → rows ≡ pre ++ rest
      → Shows paging rest
      → length rest ≤ fuel * 4
      → walk normalize (suc fuel) paging rows ≡ rest
  unfolding walk
  walk-all fuel paging pre [] e h b = rw (h.0, h.1, walk) refl
  walk-all fuel paging pre (p ∷ []) e h b = rw (h.0, h.1, walk) refl
  walk-all fuel paging pre (p ∷ (q ∷ [])) e h b = rw (h.0, h.1, walk) refl
  walk-all fuel paging pre (p ∷ (q ∷ (r ∷ []))) e h b = rw (h.0, h.1, walk) refl
  walk-all fuel paging pre (p ∷ (q ∷ (r ∷ (s ∷ [])))) e h b = rw (h.0, h.1, walk) refl
  walk-all zero paging pre (p ∷ (q ∷ (r ∷ (s ∷ (t ∷ rest))))) e h b = absurd (omega (arith, b))
  walk-all (suc fuel) paging pre (p ∷ (q ∷ (r ∷ (s ∷ (t ∷ rest))))) e h b =
      let first_three = p ∷ (q ∷ (r ∷ [])) in
      let first_four = p ∷ (q ∷ (r ∷ (s ∷ []))) in
      let more =
        walk-all fuel (after (cursor_of s)) (pre ++ first_four) (t ∷ rest)
          (e ∙ sym (append_assoc pre first_four (t ∷ rest)))
          (after-Shows (pre ++ first_three) s (t ∷ rest)
            (e ∙ sym (append_assoc pre first_three (s ∷ (t ∷ rest)))))
          (omega (arith, b)) in
      let many : ltb 4 (length (p ∷ (q ∷ (r ∷ (s ∷ (t ∷ rest)))))) ≡ true =
        lt→ltb 4 (length (p ∷ (q ∷ (r ∷ (s ∷ (t ∷ rest)))))) (omega arith) in
      rw (h.0, h.1, walk, more, many) refl

-- Of rows that each are older, by the cursors' order, than those before them: a client that asks for
-- the first page and then, as long as there are more, for the page after the last row it was shown,
-- is shown every row once, in their order, within one page more than there are rows.
pub walk-rows :
    (normalize : String → String) (rows : List OpenWorkshopRecord)
    → Descending normalize rows
    → walk normalize (suc (length rows)) first rows ≡ rows
unfolding select_page
walk-rows normalize rows d =
    walk-all normalize rows d (length rows) first [] rows refl (refl, refl) (omega arith)
