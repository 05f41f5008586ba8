-- ===== src/Inventory/Backfill/Complete.antt =====
-- When a backfill has every event of its rollout.
use mathlib.Core.Path.{subst}
use chaop.Base.{
  ◌≡◌, refl, ◌∙◌, sym, ap, arith, ℕ, zero, suc, ◌-◌, ◌≤◌, ltb, ◌==◌, Bool, true, false, String,
  List, [], ◌∷◌, map, length, drop, ok, Bool-cases, ◌⊎◌, inl, inr,
}
use chaop.Inventory.Sessions.{Readers}
use chaop.Inventory.Report.Drafts.{and_read_cases}
use chaop.Inventory.RecentLines.{lines, keep_last, read_recent_lines}
use chaop.Inventory.RecentLines.Equals.{recent_lines-exact}
use chaop.Inventory.Backfill.{
  AgentBackfillEvent, HostSessionBackfill, rollout_backfill_line_scan_limit, rollout_events,
  finish_rollout, read_rollout_backfill,
}

length-drop {ℓ} : {A : Type ℓ} (n : ℕ) (xs : List A) → length (drop n xs) ≡ length xs - n
length-drop zero xs = omega arith
length-drop (suc n) [] = omega arith
length-drop (suc n) (x ∷ xs) = omega (arith, length-drop n xs)

pub length-keep_last {ℓ} : {A : Type ℓ} (n : ℕ) (xs : List A) → length (keep_last n xs) ≤ n
length-keep_last n xs = ground (arith, length-drop (length xs - n) xs)

keep_last_all {ℓ} :
    {A : Type ℓ} (n : ℕ) (xs : List A) → ltb n (length xs) ≡ false → keep_last n xs ≡ xs
keep_last_all n xs h = rw (h)

not_reached {ℓ} :
    {A : Type ℓ} (n : ℕ) (xs : List A)
    → (length (keep_last n xs) == n) ≡ false
    → ltb n (length xs) ≡ false
not_reached n xs h = ground (arith, length-drop (length xs - n) xs, h)

length-map {ℓ κ} :
    {A : Type ℓ} {B : Type κ} (f : A → B) (xs : List A) → length (map f xs) ≡ length xs
length-map f [] = refl
length-map f (x ∷ xs) = omega (arith, length-map f xs)

scan_limit_positive : (limit : ℕ) → (rollout_backfill_line_scan_limit limit == 0) ≡ false
unfolding rollout_backfill_line_scan_limit
scan_limit_positive limit = ground arith

read_recent_lines-opened :
    (decode : List ℕ → String) (bytes : List ℕ) (n : ℕ)
    → (n == 0) ≡ false
    → read_recent_lines decode (ok bytes) n ≡ ok (map decode (keep_last n (lines bytes)))
unfolding read_recent_lines
read_recent_lines-opened decode bytes n h =
    rw (h) (ap (λ ls. ok (map decode ls)) (recent_lines-exact n bytes))

module _ (readers : Readers) (session_id : String) (limit : ℕ) where
  finish_rollout-few :
      (reached : Bool) (events : List AgentBackfillEvent)
      → length (finish_rollout limit reached events).events ≤ limit
  unfolding finish_rollout
  finish_rollout-few reached events = length-keep_last limit events

  finish_rollout-whole :
      (reached : Bool) (events : List AgentBackfillEvent)
      → (finish_rollout limit reached events).truncated ≡ false
      → (reached ≡ false) × ((finish_rollout limit reached events).events ≡ events)
  unfolding finish_rollout
  finish_rollout-whole reached events h =
      (ground (arith, h), keep_last_all limit events (ground (arith, h)))

read_rollout_backfill-made :
    (readers : Readers) (decode : List ℕ → String) (bytes : List ℕ) (session_id : String)
    (limit : ℕ) (b : HostSessionBackfill)
    → read_rollout_backfill readers decode (ok bytes) session_id limit ≡ ok b
    → (ls : List String) × (ls
        ≡ map decode (keep_last (rollout_backfill_line_scan_limit limit) (lines bytes)))
      × (finish_rollout limit
            (length ls == rollout_backfill_line_scan_limit limit)
            (rollout_events readers session_id ls)
          ≡ b)
unfolding read_rollout_backfill
read_rollout_backfill-made readers decode bytes session_id limit b h =
    let n = rollout_backfill_line_scan_limit limit in
    let (ls, read, made) =
      and_read_cases (read_recent_lines decode (ok bytes) n)
        (λ ls. ok (finish_rollout limit (length ls == n) (rollout_events readers session_id ls))) b
        h in
    (ls, cc (read, read_recent_lines-opened decode bytes n (scan_limit_positive limit)), cc (made))

whole_lines :
    {A : Type 0} {B : Type 0} (f : A → B) (n : ℕ) (all : List A) (ls : List B)
    → ls ≡ map f (keep_last n all)
    → (length ls == n) ≡ false
    → ls ≡ map f all
whole_lines f n all ls h k =
    let same : length ls ≡ length (keep_last n all) =
      ap length h ∙ length-map f (keep_last n all) in
    h ∙ ap (map f) (keep_last_all n all (not_reached n all (ap (λ m. m == n) (sym same) ∙ k)))

-- A backfill that is read from a rollout has at most `limit` events, and when it does not call itself
-- truncated it has those of all lines of the file, in their order, although only the last lines
-- were read.
pub rollout_backfill_complete :
    (readers : Readers) (decode : List ℕ → String) (bytes : List ℕ) (session_id : String)
    (limit : ℕ) (b : HostSessionBackfill)
    → read_rollout_backfill readers decode (ok bytes) session_id limit ≡ ok b
    → (length b.events ≤ limit)
      × ((b.truncated ≡ true)
          ⊎ (b.events ≡ rollout_events readers session_id (map decode (lines bytes))))
rollout_backfill_complete readers decode bytes session_id limit b h =
    let n = rollout_backfill_line_scan_limit limit in
    let (ls, last, made) = read_rollout_backfill-made readers decode bytes session_id limit b h in
    let events = rollout_events readers session_id ls in
    (
      subst (λ x. length x.events ≤ limit) made
          (finish_rollout-few readers session_id limit (length ls == n) events),
      elim (Bool-cases b.truncated) [
        | inl cut ↦ inl cut
        | inr whole ↦
            let (few_lines, every) =
              finish_rollout-whole readers session_id limit (length ls == n) events
                (ap (λ x. x.truncated) made ∙ whole) in
            inr (
              ap (λ x. x.events) (sym made)
              ∙ every
              ∙ ap (rollout_events readers session_id)
                  (whole_lines decode n (lines bytes) ls last few_lines))
      ],
    )
