-- ===== src/Tests/Queries.antt =====
-- Searches, date ranges, sorts and error chains at concrete values.
use golang_restapi.Base.{
  ℕ, ◌⊎◌, false, true, some, none, if◌then◌else◌, [], ◌∷◌, ◌≡◌, refl, ◌==◌, string_eq, arith,
}
use golang_restapi.Base.Int.{pos}
use golang_restapi.Base.Lists.{length}
use golang_restapi.Errors.{Err, app, wrap, join, plain, as_app, err_not_found}
use golang_restapi.Http.Failures.{Cause, timed_out, parse_error}
use golang_restapi.Http.Failures.Laws.{
  is_service, has_timed_out, has_called_off, too_slow, unexpected, IsDomainAnswer,
  parse_error-answers,
}
use golang_restapi.Query.{QueryBuilder, Time, select, sql}
use golang_restapi.Query.Laws.{IsNumbered}
use golang_restapi.Query.Searches.{queries-IsNumbered, user_sql-same_text}
use golang_restapi.Query.Sorting.{Sorting, column_of, apply_sort}
use golang_restapi.Query.Sorting.Laws.{IsOrdered, apply_sort-sorts}
use golang_restapi.Query.DateRange.{DateRange, Calendar, IsCalendar, IsAsked, bounds, bounds-bounds}
use golang_restapi.Query.Users.{
  Letters, Search, user_sort_fields, user_query, valid_values, parse_gender, parse_role,
}
use golang_restapi.Query.Audit.{AuditSearch, audit_query, escape_like}
use golang_restapi.Query.Escaping.{literal, literal-escape_like}
use golang_restapi.Tests.Store.{unary}

abbrev letters : Letters
letters = record { trim_space = λ s. s; to_upper = λ s. s; to_lower = λ s. s }

abbrev noon : Time
noon = record { nanos = 5; zone = "UTC" }

-- One day and one timestamp.
abbrev calendar : Calendar
calendar = record {
  parse_day = λ s. if s == "day" then some noon else none;
  parse_timestamp = λ s. if s == "stamp" then some noon else none;
  format_day = λ t. "day";
  format_timestamp = λ t. "stamp";
}

calendar_reads_back : IsCalendar calendar
calendar_reads_back = record {
  day = λ v t e. ground arith;
  day_text = λ t. refl;
  timestamp = λ v t e. ground arith;
  timestamp_text = λ t. refl;
  no_day = λ t. refl;
}

abbrev range : DateRange
range = record { date = "someday"; from = "day"; to = "stamp" }

bounds-bounds_example :
    IsAsked calendar range (bounds calendar range).1
    × (bounds calendar (bounds calendar range).0 ≡ bounds calendar range)
bounds-bounds_example = bounds-bounds calendar range calendar_reads_back

abbrev newest : Sorting
newest = record { by = "created_at"; order = "DESC" }

abbrev women : Search
women = record {
  gender = "F" ∷ "X" ∷ [];
  role = "user" ∷ [];
  sorting = newest;
  pagination = record { page = pos 1; limit = pos 10 };
}

abbrev men : Search
men = record women { gender = "M" ∷ []; role = "nobody" ∷ "admin" ∷ [] }

abbrev logins : AuditSearch
logins = record {
  entity = "user" ∷ "nothing" ∷ [];
  actor = "a_b";
  dates = range;
  sorting = newest;
  pagination = record { page = pos 1; limit = pos 10 };
}

queries-IsNumbered_example :
    IsNumbered (user_query letters women).1
    × IsNumbered (audit_query letters calendar (λ s. none) logins).1
queries-IsNumbered_example = queries-IsNumbered letters calendar (λ s. none) women logins

same_genders :
    length (valid_values letters (parse_gender letters) women.gender)
    ≡ length (valid_values letters (parse_gender letters) men.gender)
unfolding valid_values parse_gender
same_genders = refl

same_roles :
    length (valid_values letters (parse_role letters) women.role)
    ≡ length (valid_values letters (parse_role letters) men.role)
unfolding valid_values parse_role
same_roles = refl

user_sql-same_text_example :
    (sql unary (user_query letters women).1).0 ≡ (sql unary (user_query letters men).1).0
user_sql-same_text_example =
    user_sql-same_text letters unary women men same_genders same_roles refl refl

abbrev all_users : QueryBuilder
all_users = select "users" ("id" ∷ [])

no_column : column_of user_sort_fields "" ≡ none
unfolding column_of
no_column = refl

apply_sort-sorts_example :
    IsOrdered
      (λ s. s)
      user_sort_fields
      newest
      all_users
      (apply_sort (λ s. s) user_sort_fields newest all_users).1
    × (apply_sort
          (λ s. s)
          user_sort_fields
          (apply_sort (λ s. s) user_sort_fields newest all_users).0
          all_users
        ≡ apply_sort (λ s. s) user_sort_fields newest all_users)
apply_sort-sorts_example =
    apply_sort-sorts (λ s. s) user_sort_fields newest all_users refl refl no_column

literal-escape_like_example : literal false (escape_like "a_b%") ≡ some "a_b%"
literal-escape_like_example = literal-escape_like "a_b%"

abbrev missing_user : Err
missing_user = wrap "query" (join "tx failed" (app err_not_found) (plain "rollback"))

missing_is_service : is_service missing_user ≡ true
unfolding is_service
missing_is_service = refl

abbrev cause : ℕ → Cause
cause n = timed_out

parse_error-answers_example :
    ((has_timed_out cause missing_user ≡ true) × (parse_error cause missing_user ≡ too_slow))
    ⊎ ((has_timed_out cause missing_user ≡ false)
        × (((has_called_off cause missing_user ≡ true)
              × (parse_error cause missing_user ≡ unexpected 499))
            ⊎ ((has_called_off cause missing_user ≡ false)
                × IsDomainAnswer (as_app missing_user) (parse_error cause missing_user))))
parse_error-answers_example = parse_error-answers cause missing_user missing_is_service
