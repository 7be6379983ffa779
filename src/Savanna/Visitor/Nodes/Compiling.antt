-- ===== src/Savanna/Visitor/Nodes/Compiling.antt =====
-- query_compiler.hpp: what the two compilations of a tree give.
use menagerie.Prelude.{◌≡◌, refl, ap, ◌∙◌, [], append-nil, length}
use menagerie.Savanna.Expressions.{Node}
use menagerie.Savanna.Visitor.{inline, tuple, sink, new_generator}
use menagerie.Savanna.Visitor.Nodes.{visit, compile_static, compile_dynamic}
use menagerie.Savanna.Visitor.Nodes.Hooks.{placeholders, substitute}
use menagerie.Savanna.Visitor.Nodes.Numbering.{up_from, Agree}
use menagerie.Savanna.Visitor.Nodes.Modes.{BindsLiterals, visit-Agrees}

module _ {V : Type 0} where
  pub new-Agree : Agree {V = V} new_generator new_generator new_generator
  new-Agree = record { same_sql = refl; same_count = refl; inlined = λ ys. refl; numbered = refl }

  -- If the parameters of a tree are literals, the compilation at run time into a sink gives the
  -- text and the parameters of the compilation to a static query with a tuple of parameters.
  pub compile_dynamic-eq-compile_static :
      (e : Node V) → BindsLiterals e → compile_dynamic sink e ≡ compile_static tuple e
  unfolding compile_static compile_dynamic
  compile_dynamic-eq-compile_static e b =
      let agrees = visit-Agrees e b in
      rw ((agrees.keeps new-Agree).same_sql, agrees.pushes new-Agree) refl

  -- If the parameters of a tree are literals, the text with the values inline, which has no
  -- parameters, is the text with placeholders in which the parameter of each is put in its place.
  pub compile_static-inline :
      (e : Node V)
      → BindsLiterals e
      → compile_static inline e
        ≡ (substitute (compile_static tuple e).1 (compile_static tuple e).0, [])
  unfolding compile_static
  compile_static-inline e b =
      let agrees = visit-Agrees e b in
      rw
        (
          (agrees.keeps new-Agree).inlined [],
          append-nil (visit sink e new_generator).0.sink_values,
          agrees.pushes new-Agree,
          agrees.inline_drops new-Agree,
        )
        refl

  -- If the parameters of a tree are literals, the placeholders of its text are numbered in order
  -- from 1, one for each parameter.
  pub placeholders-compile_static :
      (e : Node V)
      → BindsLiterals e
      → placeholders (compile_static tuple e).0 ≡ up_from 1 (length (compile_static tuple e).1)
  unfolding compile_static
  placeholders-compile_static e b =
      let agrees = visit-Agrees e b in
      (agrees.keeps new-Agree).numbered ∙ ap (λ l. up_from 1 (length l)) (agrees.pushes new-Agree)
