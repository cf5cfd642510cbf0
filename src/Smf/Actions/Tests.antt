-- ===== src/Smf/Actions/Tests.antt =====
-- A concrete library for tables with actions: the context is its state.
use zephyr_samples.Base.{◌≡◌, refl, Bool, [], ◌++◌}
use zephyr_samples.Smf.Actions.{Obj, Table, Hsm, exits, entries}
use zephyr_samples.Smf.Nested
use zephyr_samples.Smf.Nested.Trace as NestedTrace

module _ {S Line : Type 0} (eq : S → S → Bool) where
  abbrev enter : Table S Line → S → Obj S Line → Obj S Line
  enter t m o = record { ctx = m; out = o.out ++ entries eq t (t.path m) [] }

  abbrev move : Table S Line → S → Obj S Line → Obj S Line
  move t k o = record {
    ctx = k;
    out = o.out ++ (exits eq t (t.path o.ctx) (t.path k) ++ entries eq t (t.path k) (t.path o.ctx));
  }

  abbrev plain : Hsm S Line S eq
  plain = record {
    current = λ c. c;
    set_initial = λ t m o. enter t m o;
    set_state = λ t m o. move t m o;
    run_state = λ run o. run o.ctx o;
    current-set_initial = λ t m o. refl;
    out-set_initial = λ t m o. refl;
    current-set_state = λ t m o. refl;
    out-set_state = λ t m k o h e. rw h refl;
    run_state_lem = λ run o. refl;
  }

main-nested_lines_example :
    let o = Nested.main (plain Nested.same) 4 (record { ctx = Nested.parent; out = [] }) in
    (o.ctx ≡ NestedTrace.after 4) × (o.out ≡ NestedTrace.lines 4)
main-nested_lines_example = NestedTrace.main-nested_lines (plain Nested.same) 4 Nested.parent
