-- ===== src/Streams/Requests.antt =====
-- requests_jp.py: the requests that were observed on the Japanese cartridge.
mod Part0
mod Part1
mod Part2
mod Part3
mod Part4
mod Part5
mod Part6
mod Part7
mod Part8
mod Part9
mod Part10
mod Part11
use street_fighter_alpha_2_n.Base.{ℕ, List, ◌++◌}
use street_fighter_alpha_2_n.Streams.Requests.Part0.{jp_requests_0}
use street_fighter_alpha_2_n.Streams.Requests.Part1.{jp_requests_1}
use street_fighter_alpha_2_n.Streams.Requests.Part2.{jp_requests_2}
use street_fighter_alpha_2_n.Streams.Requests.Part3.{jp_requests_3}
use street_fighter_alpha_2_n.Streams.Requests.Part4.{jp_requests_4}
use street_fighter_alpha_2_n.Streams.Requests.Part5.{jp_requests_5}
use street_fighter_alpha_2_n.Streams.Requests.Part6.{jp_requests_6}
use street_fighter_alpha_2_n.Streams.Requests.Part7.{jp_requests_7}
use street_fighter_alpha_2_n.Streams.Requests.Part8.{jp_requests_8}
use street_fighter_alpha_2_n.Streams.Requests.Part9.{jp_requests_9}
use street_fighter_alpha_2_n.Streams.Requests.Part10.{jp_requests_10}
use street_fighter_alpha_2_n.Streams.Requests.Part11.{jp_requests_11}

unfoldable pub jp_requests : List (ℕ × ℕ)
unfolding jp_requests_0 jp_requests_1 jp_requests_2 jp_requests_3 jp_requests_4 jp_requests_5
    jp_requests_6 jp_requests_7 jp_requests_8 jp_requests_9 jp_requests_10 jp_requests_11
jp_requests =
    jp_requests_0
    ++ (jp_requests_1
        ++ (jp_requests_2
            ++ (jp_requests_3
                ++ (jp_requests_4
                    ++ (jp_requests_5
                        ++ (jp_requests_6
                            ++ (jp_requests_7
                                ++ (jp_requests_8
                                    ++ (jp_requests_9
                                        ++ (jp_requests_10 ++ (jp_requests_11)))))))))))
