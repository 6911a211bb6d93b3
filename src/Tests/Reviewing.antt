-- ===== src/Tests/Reviewing.antt =====
-- Reviews of the request that waits in the world of the tests.
use max_one.Prelude.{refl, ◌≢◌, none}
use max_one.Exec.{ok}
use max_one.Wallets.Review.{approve}
use max_one.Wallets.Access.{get_settleable_type, assert_approve_permission, holds}
use max_one.Wallets.Laws.Reviews.{Decision, review, Reviewed, review_permitted, reviewed_once}
use max_one.Tests.{prisma, prisma-IsPrisma, host, carol, waiting_row, world}

review_permitted_example : Reviewed {p = prisma} 0 carol Decision.accept world
unfolding approve get_settleable_type assert_approve_permission holds
review_permitted_example = review_permitted host 0 carol world Decision.accept refl

reviewed_once_example :
    (review host 0 carol
      (Decision.decline none)
      (review {p = prisma} host 0 carol Decision.accept world).1).0
    ≢ ok waiting_row
unfolding approve get_settleable_type assert_approve_permission holds
reviewed_once_example =
    reviewed_once host host 0 carol carol Decision.accept (Decision.decline none) world
      prisma-IsPrisma refl waiting_row
